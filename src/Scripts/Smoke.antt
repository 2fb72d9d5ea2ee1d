-- ===== src/Scripts/Smoke.antt =====
-- scripts/smoke_brainstorm.py: what a check reports, what the script meets, and its helpers.
pub mod Probes
pub mod Tokens
pub mod Turns
pub mod Done
pub mod Main
pub mod Exits
pub mod Forgery
pub mod Deployed
pub mod Refusal
use Prim.Native.Char.{Char, code}
use Prim.Native.String.{[] as empty, ◌∷◌ as ◌∷ˢ◌, ◌++◌ as ◌++ˢ◌}
use decision_maker_flow.Prelude.{
  ℕ, zero, suc, ◌-◌, String, Bool, true, false, ◌&&◌, ◌||◌, Option, none, some, List, [], ◌∷◌, ltb,
  leb, ◌==◌, is_space, is_empty, str_eq, rstrip, if◌then◌else◌, Outcome, ok, raised,
}
use decision_maker_flow.Prelude.Int.{ℤ, pos, negsuc, ltb_ℤ}
use decision_maker_flow.Json.{Json, null, str, obj, Fields, end, field, int}
use decision_maker_flow.Http.{Endpoint, metrics, Request, Response}
use decision_maker_flow.Server.Auth.{Crypto, after_prefix}

-- The exceptions that the checks catch: one of httpx by its text, and those of a body that is no
-- dict.
pub data Raised : Type 0 where
  transport_error : String → Raised
  attribute_error type_error : Raised

-- The detail of a check, by the message and the values that are shown in it.
pub data Detail : Type 0 where
  healthy ready forged_refused both_done skipped timed_out answered_twice : Detail
  unexpected_status : (status_code : ℕ) → Detail
  unexpected_second_status : (status_code : ℕ) → Detail
  unexpected_value : (key : String) → Json → Detail
  partial : (llm_gateway : Json) → Detail
  non_json no_reply : Detail
  slow : (rtt_ms : ℕ) → Detail
  wrong_content_type : String → Detail
  missing_families : List String → Detail
  all_families : Detail
  no_correlation_id : Detail
  refused_with_id : String → Detail
  metric_delta : (before after : ℤ) → Detail
  done_failures : List (ℕ × ℤ) → Detail
  connection_error : Raised → Detail

-- (passed, detail, rtt_ms)
pub record Verdict : Type 0 where
  pub passed : Bool
  pub detail : Detail
  pub rtt_ms : ℕ

-- What the script meets: the server through httpx, which may raise, and the clocks and uuid4() of
-- the standard library. `time.monotonic` is read in milliseconds.
pub record Machine : Type 1 where
  pub World : Type 0
  pub send : (base_url : String) → Request → World → Outcome String Response × World
  pub monotonic : World → ℕ
  pub time : World → ℤ
  pub uuid4 : World → String × World

-- The library's functions: bytes, HMAC and base64 as in auth.py, json.dumps with sorted keys and
-- no spaces, and `int(float(s))`, which may raise.
pub record Primitives : Type 1 where
  pub crypto : Crypto
  pub dumps : Fields → crypto.Bytes
  pub encode : String → crypto.Bytes
  pub int_float : String → Option ℤ

abbrev pub pass : Detail → ℕ → Verdict
pass detail rtt_ms = record { passed = true; detail = detail; rtt_ms = rtt_ms }

abbrev pub reject : Detail → ℕ → Verdict
reject detail rtt_ms = record { passed = false; detail = detail; rtt_ms = rtt_ms }

-- `v == "ok"`
abbrev pub is_text : String → Json → Bool
is_text s (str t) = str_eq t s
is_text s _ = false

-- `needle in s`
unfoldable pub includes : (needle : String) → String → Bool
unfolding after_prefix
includes needle empty = is_empty needle
includes needle (c ∷ˢ s) =
    let later = includes needle s in
    elim (after_prefix needle (c ∷ˢ s)) [ none ↦ later | some rest ↦ true ]

-- The characters at which `str.splitlines` ends a line.
abbrev is_line_break : ℕ → Bool
is_line_break c =
    (leb 10 c && leb c 13) || (leb 28 c && leb c 30) || (c == 133) || (c == 8232) || (c == 8233)

abbrev pub onto_first : Char → List String → List String
onto_first c [] = (c ∷ˢ empty) ∷ []
onto_first c (l ∷ ls) = (c ∷ˢ l) ∷ ls

-- `s.splitlines()`; `\r\n` is one break.
unfoldable pub splitlines : String → List String
splitlines empty = []
splitlines (c ∷ˢ empty) = if is_line_break (code c) then empty ∷ [] else (c ∷ˢ empty) ∷ []
splitlines (c ∷ˢ d ∷ˢ s) =
    let rest = splitlines (d ∷ˢ s) in
    if code c == 13 && (code d == 10)
    then rest
    else if is_line_break (code c)
    then empty ∷ rest
    else onto_first c rest

-- The word that the text ends in, behind what was read of it.
abbrev word_at_end : (read : String) → String → String
word_at_end read empty = read
word_at_end read (c ∷ˢ s) =
    word_at_end (if is_space (code c) then empty else read ++ˢ (c ∷ˢ empty)) s

-- `s.split()[-1]`, which raises where there is no word.
unfoldable pub last_word : String → Option String
unfolding rstrip
last_word s = let t = rstrip s in if is_empty t then none else some (word_at_end empty t)

-- The exceptions that leave a check and end the script.
pub data Crash : Type 0 where
  index_error slice_error : Crash

-- A check that reports that it passed.
abbrev pub passes : Outcome Crash Verdict → Bool
passes (raised crash) = false
passes (ok verdict) = verdict.passed

module _ (m : Machine) where
  abbrev pub Checked : Type 0
  Checked = Outcome Crash Verdict × m.World

  -- (time.monotonic() - start) * 1000
  abbrev pub rtt_since : m.World → m.World → ℕ
  rtt_since start w = m.monotonic w - m.monotonic start

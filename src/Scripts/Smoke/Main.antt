-- ===== src/Scripts/Smoke/Main.antt =====
-- scripts/smoke_brainstorm.py: run_all_checks and main. What is printed is left out.
use decision_maker_flow.Prelude.{
  ℕ, ◌+◌, String, Bool, true, false, Option, none, some, List, [], ◌∷◌, ltb, str_eq, is_empty,
  if◌then◌else◌, Outcome, ok, ◌>>=◌,
}
use decision_maker_flow.Json.{Json, str}
use decision_maker_flow.Scripts.Smoke.{Verdict, Machine, Primitives, Crash}
use decision_maker_flow.Scripts.Smoke.Probes.{
  check_1_healthz, check_2_readyz, check_3_metrics, check_4_auth_missing,
}
use decision_maker_flow.Scripts.Smoke.Turns.{check_5_bad_signature, check_6_turn_happy}
use decision_maker_flow.Scripts.Smoke.Done.{check_7_done_idempotent}

-- An entry of `results`.
pub record Result : Type 0 where
  pub check_n : ℕ
  pub name : String
  pub verdict : Verdict

-- session_id_out[0] if session_id_out else ""
abbrev first_or_empty : List Json → Json
first_or_empty [] = str ""
first_or_empty (session_id ∷ rest) = session_id

module _ (m : Machine) where
  -- The world, and `session_id_out`.
  abbrev pub Progress : Type 0
  Progress = m.World × List Json

  -- An entry of `checks`.
  pub record Check : Type 0 where
    pub check_n : ℕ
    pub name : String
    pub run : Progress → Outcome Crash Verdict × Progress

  -- The loop over the checks; an exception that a check does not catch ends it.
  unfoldable pub run_checks : List Check → Progress → Outcome Crash (List Result)
  run_checks [] p = ok []
  run_checks (c ∷ cs) p =
      let (outcome, after) = c.run p in
      outcome >>= λ verdict. run_checks cs after >>= λ rest.
      ok (record { check_n = c.check_n; name = c.name; verdict = verdict } ∷ rest)

  -- A check that has nothing to do with `session_id_out`.
  abbrev apart :
      (m.World → Outcome Crash Verdict × m.World) → Progress → Outcome Crash Verdict × Progress
  apart check (w, out) = let (outcome, after) = check w in (outcome, (after, out))

module _ (prims : Primitives) (m : Machine) where
  abbrev turn_entry :
      (base_url : String) (secret : prims.crypto.Bytes)
      → Progress m
      → Outcome Crash Verdict × Progress m
  turn_entry base_url secret (w, out) =
      let (verdict, session_id_out, after) = check_6_turn_happy prims m base_url secret w in
      (ok verdict, (after, session_id_out))

  abbrev done_entry :
      (base_url : String) (secret : prims.crypto.Bytes)
      → Progress m
      → Outcome Crash Verdict × Progress m
  done_entry base_url secret (w, out) =
      apart m (check_7_done_idempotent prims m base_url secret (first_or_empty out)) (w, out)

  unfoldable pub checks :
      (base_url : String) (secret : prims.crypto.Bytes) (allow_readyz_partial : Bool)
      → List (Check m)
  unfolding check_1_healthz check_2_readyz check_3_metrics check_4_auth_missing
      check_5_bad_signature check_6_turn_happy check_7_done_idempotent
  checks base_url secret allow_readyz_partial =
      record { check_n = 1; name = "healthz"; run = apart m (check_1_healthz m base_url) }
      ∷ record {
        check_n = 2;
        name = "readyz";
        run = apart m (check_2_readyz m base_url allow_readyz_partial);
      }
      ∷ record { check_n = 3; name = "metrics"; run = apart m (check_3_metrics m base_url) }
      ∷ record {
        check_n = 4;
        name = "auth_missing";
        run = apart m (check_4_auth_missing m base_url);
      }
      ∷ record {
        check_n = 5;
        name = "bad_signature";
        run = apart m (check_5_bad_signature prims m base_url secret);
      }
      ∷ record { check_n = 6; name = "turn_happy+idempotency"; run = turn_entry base_url secret }
      ∷ record { check_n = 7; name = "done_idempotent"; run = done_entry base_url secret }
      ∷ []

  unfoldable pub run_all_checks :
      (base_url : String) (secret : prims.crypto.Bytes) (allow_readyz_partial : Bool)
      → m.World
      → Outcome Crash (List Result)
  unfolding checks run_checks
  run_all_checks base_url secret allow_readyz_partial w =
      run_checks m (checks base_url secret allow_readyz_partial) (w, [])

-- What argparse gives: the options that are on the command line.
pub record Options : Type 0 where
  pub base_url : Option String
  pub secret : Option String
  pub allow_readyz_partial : Bool

abbrev pub or_else : Option String → String → String
or_else none d = d
or_else (some s) d = s

-- sum(1 for r in results if not r[2])
unfoldable pub failed_count : List Result → ℕ
failed_count [] = 0
failed_count (r ∷ rs) = (if r.verdict.passed then 0 else 1) + failed_count rs

-- os.environ.get("BRAINSTORM_SMOKE") == "1"
abbrev pub is_activated : (environ : String → Option String) → Bool
is_activated environ = elim (environ "BRAINSTORM_SMOKE") [ none ↦ false | some s ↦ str_eq s "1" ]

abbrev pub secret_of : (environ : String → Option String) → Options → String
secret_of environ options = or_else options.secret (or_else (environ "BRAINSTORM_HMAC_SECRET") "")

abbrev pub base_url_of : (environ : String → Option String) → Options → String
base_url_of environ options =
    or_else options.base_url (or_else (environ "BRAINSTORM_BASE_URL") "http://127.0.0.1:8000")

-- The guard, the test of the secret and the summary. An exception ends the script before it.
abbrev pub exit_code : (activated no_secret : Bool) → Outcome Crash (List Result) → Outcome Crash ℕ
exit_code false no_secret ran = ok 0
exit_code true true ran = ok 1
exit_code true false ran = ran >>= λ results. ok (if ltb 0 (failed_count results) then 1 else 0)

module _ (prims : Primitives) (m : Machine) where
  unfoldable pub main : (environ : String → Option String) → Options → m.World → Outcome Crash ℕ
  main environ options w =
      let secret = secret_of environ options in
      exit_code (is_activated environ) (is_empty secret) (
        run_all_checks prims m (base_url_of environ options) (prims.encode secret)
          options.allow_readyz_partial w)

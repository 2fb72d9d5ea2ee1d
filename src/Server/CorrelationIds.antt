-- ===== src/Server/CorrelationIds.antt =====
-- The texts that server/middleware.py takes for a correlation id.
use decision_maker_flow.Prelude.{
  ℕ, ◌≤◌, ◌≡◌, ◌⊎◌, inl, inr, refl, String, true, Option, none, some, List, [], ◌∷◌, ◌++◌, All,
  arith, length, Bool-cases, ◌==◌, ap,
}
use decision_maker_flow.Server.Idempotency.{chars, is_key_char, all_key_chars, before_newline}
use decision_maker_flow.Server.Middleware.{matches_correlation_id, correlation_id}

-- A letter, a digit, an underscore or a hyphen.
abbrev IsIdChar : ℕ → Type 0
IsIdChar c =
    ((97 ≤ c) × (c ≤ 122)) ⊎ ((65 ≤ c) × (c ≤ 90)) ⊎ ((48 ≤ c) × (c ≤ 57)) ⊎ (c ≡ 95) ⊎ (c ≡ 45)

-- 8 to 64 of these, and perhaps a newline behind them.
abbrev pub IsId : String → Type 0
IsId s =
    (body : List ℕ) × ((chars s ≡ body) ⊎ (chars s ≡ body ++ (10 ∷ [])))
    × All IsIdChar body
    × (8 ≤ length body)
    × (length body ≤ 64)

-- The id of a request with this header, where the middleware has made `new_id`.
abbrev pub IdOf : (new_id : String) (header : Option String) (id : String) → Type 0
IdOf new_id none id = id ≡ new_id
IdOf new_id (some h) id = (IsId h × (id ≡ h)) ⊎ ((¬ IsId h) × (id ≡ new_id))

char_lem : (c : ℕ) → is_key_char c ≡ true → IsIdChar c
char_lem c h = ground (arith, h)

lem_char : (c : ℕ) → IsIdChar c → is_key_char c ≡ true
lem_char c h = ground (arith, h)

chars_lem : (cs : List ℕ) → all_key_chars cs ≡ true → All IsIdChar cs
unfolding all_key_chars
chars_lem [] h = tt
chars_lem (c ∷ cs) h = (char_lem c (ground (arith, h)), chars_lem cs (ground (arith, h)))

lem_chars : (cs : List ℕ) → All IsIdChar cs → all_key_chars cs ≡ true
unfolding all_key_chars
lem_chars [] h = refl
lem_chars (c ∷ cs) (fine, h) = rw (lem_char c fine, lem_chars cs h) refl

newline_split : (cs : List ℕ) → (cs ≡ before_newline cs) ⊎ (cs ≡ before_newline cs ++ (10 ∷ []))
unfolding before_newline
newline_split [] = inl refl
newline_split (c ∷ []) = elim (Bool-cases (c == 10)) [
  | inl e ↦ let newline : c ≡ 10 = ground (arith, e) in rw newline (inr refl)
  | inr e ↦ rw e (inl refl)
]
newline_split (c ∷ d ∷ cs) = elim (newline_split (d ∷ cs)) [
  | inl e ↦ inl (ap (λ t. c ∷ t) e)
  | inr e ↦ inr (ap (λ t. c ∷ t) e)
]

before_newline-plain : (cs : List ℕ) → All IsIdChar cs → before_newline cs ≡ cs
unfolding before_newline
before_newline-plain [] h = refl
before_newline-plain (c ∷ []) h = ground (arith, h.0)
before_newline-plain (c ∷ d ∷ cs) h = ap (λ t. c ∷ t) (before_newline-plain (d ∷ cs) h.1)

before_newline-ended : (cs : List ℕ) → All IsIdChar cs → before_newline (cs ++ (10 ∷ [])) ≡ cs
unfolding before_newline
before_newline-ended [] h = refl
before_newline-ended (c ∷ []) h = refl
before_newline-ended (c ∷ d ∷ cs) h = ap (λ t. c ∷ t) (before_newline-ended (d ∷ cs) h.1)

matches-IsId : (h : String) → matches_correlation_id h ≡ true → IsId h
unfolding matches_correlation_id
matches-IsId h m =
    let body = before_newline (chars h) in
    (
      body,
      newline_split (chars h),
      chars_lem body (ground (arith, m)),
      ground (arith, m),
      ground (arith, m),
    )

IsId-body :
    (h : String) (body : List ℕ)
    → (chars h ≡ body) ⊎ (chars h ≡ body ++ (10 ∷ []))
    → All IsIdChar body
    → before_newline (chars h) ≡ body
IsId-body h body (inl e) fine = rw e (before_newline-plain body fine)
IsId-body h body (inr e) fine = rw e (before_newline-ended body fine)

IsId-matches : (h : String) → IsId h → matches_correlation_id h ≡ true
unfolding matches_correlation_id
IsId-matches h (body, split, fine, long, short) =
    rw (IsId-body h body split fine, lem_chars body fine) (ground (arith, long, short))

pub correlation_id-IdOf :
    (new_id : String) (header : Option String) → IdOf new_id header (correlation_id new_id header).0
unfolding correlation_id
correlation_id-IdOf new_id none = refl
correlation_id-IdOf new_id (some h) = elim (Bool-cases (matches_correlation_id h)) [
  | inl e ↦ rw e (inl (matches-IsId h e, refl))
  | inr e ↦ rw e (
      inr
        ((λ fine. let it_does : matches_correlation_id h ≡ true = IsId-matches h fine in cc), refl))
]

-- ===== src/Scripts/Smoke/Exits.antt =====
-- The exit code of scripts/smoke_brainstorm.py.
use decision_maker_flow.Prelude.{
  ◌≡◌, ◌↔◌, ◌⊎◌, inl, inr, refl, String, Bool, true, false, Option, List, [], ◌∷◌, is_empty, arith,
  Outcome, ok, raised, bind_inv, All, length,
}
use decision_maker_flow.Scripts.Smoke.{Machine, Primitives, Crash}
use decision_maker_flow.Scripts.Smoke.Main.{
  Result, Progress, Check, run_checks, checks, run_all_checks, Options, failed_count, is_activated,
  secret_of, base_url_of, exit_code, main,
}

abbrev pub IsPassed : Result → Type 0
IsPassed r = r.verdict.passed ≡ true

failed_count-All : (rs : List Result) → failed_count rs ≡ 0 → All IsPassed rs
unfolding failed_count
failed_count-All [] h = tt
failed_count-All (r ∷ rs) h = (ground arith, failed_count-All rs (ground arith))

All-failed_count : (rs : List Result) → All IsPassed rs → failed_count rs ≡ 0
unfolding failed_count
All-failed_count [] h = refl
All-failed_count (r ∷ rs) (passed, h) = ground (arith, All-failed_count rs h, passed)

module _ (m : Machine) where
  -- A run that is not ended by an exception has a result for each check.
  length-run_checks :
      (cs : List (Check m)) (p : Progress m) {rs : List Result}
      → run_checks m cs p ≡ ok rs
      → length rs ≡ length cs
  unfolding run_checks
  length-run_checks [] p {rs = []} h = refl
  length-run_checks [] p {rs = r ∷ rs} h = cc
  length-run_checks (c ∷ cs) p {rs} h =
      let (verdict, first, later) = bind_inv (c.run p).0 h in
      let (rest, ran, e) = bind_inv (run_checks m cs (c.run p).1) later in
      ground (arith, e, length-run_checks cs (c.run p).1 ran)

exit_code-zero :
    (activated no_secret : Bool) (ran : Outcome Crash (List Result))
    → exit_code activated no_secret ran ≡ ok 0
    → (activated ≡ false)
      ⊎ ((no_secret ≡ false) × (results : List Result) × (ran ≡ ok results) × All IsPassed results)
exit_code-zero false no_secret ran h = inl refl
exit_code-zero true true ran h = absurd (ground arith)
exit_code-zero true false (raised crash) h = absurd (cc)
exit_code-zero true false (ok rs) h = inr (refl, rs, refl, failed_count-All rs (ground (arith, h)))

zero-exit_code :
    (activated no_secret : Bool) {ran : Outcome Crash (List Result)} (rs : List Result)
    → no_secret ≡ false
    → ran ≡ ok rs
    → All IsPassed rs
    → exit_code activated no_secret ran ≡ ok 0
zero-exit_code false no_secret rs given all passed = refl
zero-exit_code true true rs given all passed = cc
zero-exit_code true false rs given all passed = rw (all, All-failed_count rs passed) refl

module _ (prims : Primitives) (m : Machine) where
  length-run_all_checks :
      (base_url : String) (secret : prims.crypto.Bytes) (allow_partial : Bool) (w : m.World)
      {rs : List Result}
      → run_all_checks prims m base_url secret allow_partial w ≡ ok rs
      → length rs ≡ 7
  unfolding run_all_checks checks
  length-run_all_checks base_url secret allow_partial w h =
      length-run_checks m (checks prims m base_url secret allow_partial) (w, []) h

  -- The script exits with 0 exactly if it is not activated, or it has a secret and none of its seven
  -- checks is ended by an exception or fails.
  pub exit_zero :
      (environ : String → Option String) (options : Options) (w : m.World)
      → let secret = secret_of environ options in
        (main prims m environ options w ≡ ok 0) ↔ (
          (is_activated environ ≡ false)
          ⊎ ((is_empty secret ≡ false)
              × (results : List Result) × (run_all_checks prims m
                    (base_url_of environ options)
                    (prims.encode secret)
                    options.allow_readyz_partial
                    w
                  ≡ ok results)
              × (length results ≡ 7)
              × All IsPassed results))
  unfolding main
  exit_zero environ options w =
      let secret = secret_of environ options in
      let ran =
        run_all_checks prims m (base_url_of environ options) (prims.encode secret)
          options.allow_readyz_partial w in
      (
        λ h. elim (exit_code-zero (is_activated environ) (is_empty secret) ran h) [
          | inl off ↦ inl off
          | inr (given, rs, all, passed) ↦
              inr (given, rs, all, length-run_all_checks _ _ _ w all, passed)
        ],
        λ h. elim h [
          | inl off ↦ rw off refl
          | inr (given, rs, all, seven, passed) ↦
              zero-exit_code (is_activated environ) (is_empty secret) rs given all passed
        ],
      )

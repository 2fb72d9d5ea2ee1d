-- ===== src/Agent/Override.antt =====
-- src/features/decision_maker/nodes.py, the global `_LLM_CLIENT_OVERRIDE`, and how the four public
-- functions of graph.py set and clear it around a session, as a sequence of events on one loop.
use decision_maker_flow.Prelude.{
  ℕ, zero, suc, ◌≡◌, refl, Bool, true, false, Option, none, some, List, [], ◌∷◌, ap, ◌∙◌,
}

-- n copies of a, in front of a list.
abbrev pub times {κ} : {A : Type κ} → ℕ → A → List A → List A
times zero a rest = rest
times (suc n) a rest = a ∷ times n a rest

module _ {ℓ} (Client : Type ℓ) where
  -- A session starts with the client that it is given, if any; a node takes its client; a session
  -- ends, by whatever way.
  pub data Event : Type ℓ where
    enter : Option Client → Event
    call : Event
    leave : Option Client → Event

module _ {ℓ} {Client : Type ℓ} where
  unfoldable pub set_llm_client_override : Option Client → (global : Option Client) → Option Client
  set_llm_client_override client global = client

  -- `if llm_client is not None: set_llm_client_override(llm_client)`
  unfoldable pub entered : (llm_client global : Option Client) → Option Client
  unfolding set_llm_client_override
  entered none global = global
  entered (some c) global = set_llm_client_override (some c) global

  -- `finally: if llm_client is not None: set_llm_client_override(None)`
  unfoldable pub left : (llm_client global : Option Client) → Option Client
  unfolding set_llm_client_override
  left none global = global
  left (some c) global = set_llm_client_override none global

  -- What the calls of a sequence find in the global.
  unfoldable pub met : List (Event Client) → (global : Option Client) → List (Option Client)
  unfolding entered left
  met [] g = []
  met (enter c ∷ es) g = met es (entered c g)
  met (call ∷ es) g = g ∷ met es g
  met (leave c ∷ es) g = met es (left c g)

  -- Sessions one after the other, each with its client and its number of calls.
  abbrev pub one_by_one : List (Option Client × ℕ) → List (Event Client)
  one_by_one [] = []
  one_by_one ((c, n) ∷ ss) = enter c ∷ times n call (leave c ∷ one_by_one ss)

  abbrev pub own_clients : List (Option Client × ℕ) → List (Option Client)
  own_clients [] = []
  own_clients ((c, n) ∷ ss) = times n c (own_clients ss)

  met-times :
      (n : ℕ) (es : List (Event Client)) (g : Option Client)
      → met (times n call es) g ≡ times n g (met es g)
  unfolding met
  met-times zero es g = refl
  met-times (suc n) es g = ap (λ l. g ∷ l) (met-times n es g)

  cleared : (c : Option Client) → left c (entered c none) ≡ none
  unfolding entered left set_llm_client_override
  cleared none = refl
  cleared (some c) = refl

  used : (c : Option Client) → entered c none ≡ c
  unfolding entered set_llm_client_override
  used none = refl
  used (some c) = refl

  -- Sessions that run one after the other meet the client that each was given, and none where it
  -- was given none.
  pub sequential_clients :
      (ss : List (Option Client × ℕ)) → met (one_by_one ss) none ≡ own_clients ss
  unfolding met
  sequential_clients [] = refl
  sequential_clients ((c, n) ∷ ss) =
      met-times n (leave c ∷ one_by_one ss) (entered c none)
      ∙ ap (times n (entered c none)) (ap (met (one_by_one ss)) (cleared c) ∙ sequential_clients ss)
      ∙ ap (λ g. times n g (own_clients ss)) (used c)

  -- The calls of a sequence in which no session starts.
  unfoldable pub calls : List (Event Client) → ℕ
  calls [] = 0
  calls (enter c ∷ es) = calls es
  calls (call ∷ es) = suc (calls es)
  calls (leave c ∷ es) = calls es

  unfoldable pub starts : List (Event Client) → Bool
  starts [] = false
  starts (enter c ∷ es) = true
  starts (call ∷ es) = starts es
  starts (leave c ∷ es) = starts es

  none-met : (es : List (Event Client)) → starts es ≡ false → met es none ≡ times (calls es) none []
  unfolding met starts calls left set_llm_client_override
  none-met [] h = refl
  none-met (enter c ∷ es) h = cc
  none-met (call ∷ es) h = ap (λ l. none ∷ l) (none-met es h)
  none-met (leave none ∷ es) h = none-met es h
  none-met (leave (some c) ∷ es) h = none-met es h

  -- Once a session that was given a client has ended, every call meets no override until another
  -- session starts, also the calls of sessions that are still running with a client of their own.
  pub lost_override :
      (ended : Client) (es : List (Event Client)) (global : Option Client)
      → starts es ≡ false
      → met (leave (some ended) ∷ es) global ≡ times (calls es) none []
  unfolding met left set_llm_client_override
  lost_override ended es global h = none-met es h

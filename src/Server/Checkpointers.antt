-- ===== src/Server/Checkpointers.antt =====
-- server/checkpoint_factory.py: build_checkpointer, the set-up of the tables, and the methods of
-- TouchingCheckpointer that only delegate.
use decision_maker_flow.Prelude.{
  ℕ, ◌≡◌, ◌↔◌, ◌⊎◌, inl, inr, eq_iff, Bool-cases, refl, String, Bool, true, false, Option, none,
  some, List, [], ◌∷◌, ◌++◌, str_eq, arith, if◌then◌else◌, Outcome, ok, raised,
}
use decision_maker_flow.Prelude.Int.{ℤ}
use decision_maker_flow.Table.{Rows}
use decision_maker_flow.Agent.Engine.{Checkpoint}
use decision_maker_flow.Server.Saver.{Saver, TouchingCheckpointer, list_stale}
use decision_maker_flow.Protocol.{follows, times, follows-times}

-- The savers that the factory knows, and its failures: ConfigError, for a kind that it does not
-- know and for Postgres where its package is not installed, or what the connection raises.
pub data Backend : Type 0 where
  sqlite postgres : Backend

pub data BuildError : Type 0 where
  unsupported_kind not_installed connection_failed : BuildError

-- The switch on `cfg.checkpointer_kind`.
unfoldable pub backend_of : (kind : String) (installed : Bool) → Outcome BuildError Backend
backend_of kind installed =
    if str_eq kind "sqlite"
    then ok sqlite
    else if str_eq kind "postgres"
    then if installed then ok postgres else raised not_installed
    else raised unsupported_kind

-- What happens to the connection; `used` is whatever is done with the saver.
pub data ConnectionEvent : Type 0 where
  opened closed used : ConnectionEvent

-- How the `async with` of the caller ends.
pub data Ending : Type 0 where
  returned raised_inside : Ending

abbrev connected :
    (connects : Bool) (n : ℕ)
    → Ending
    → Outcome BuildError Backend
    → List ConnectionEvent × Outcome BuildError (Backend × Ending)
connected connects n ending (raised e) = ([], raised e)
connected false n ending (ok backend) = ([], raised connection_failed)
connected true n ending (ok backend) =
    (opened ∷ (times n used ++ (closed ∷ [])), ok (backend, ending))

-- `async with build_checkpointer(cfg)` around n uses: the connection is closed also where the
-- caller raises.
unfoldable pub with_checkpointer :
    (kind : String) (installed connects : Bool) (n : ℕ)
    → Ending
    → List ConnectionEvent × Outcome BuildError (Backend × Ending)
unfolding backend_of
with_checkpointer kind installed connects n ending =
    connected connects n ending (backend_of kind installed)

-- The synchronous methods of the inner saver that write.
pub record SyncSaver (saver : Saver) : Type 0 where
  pub put : String → Checkpoint → saver.State → saver.State
  pub put_writes : String → saver.State → saver.State

-- A call of a method that only delegates: `get`, `get_tuple`, `list` and `alist` read.
pub data SyncCall : Type 0 where
  read : (thread_id : String) → SyncCall
  put : (thread_id : String) → Checkpoint → SyncCall
  put_writes : (thread_id : String) → SyncCall

module _ {saver : Saver} (sync : SyncSaver saver) where
  unfoldable pub delegate : SyncCall → TouchingCheckpointer saver → TouchingCheckpointer saver
  delegate (read thread_id) c = c
  delegate (put thread_id checkpoint) c = record c { inner = sync.put thread_id checkpoint c.inner }
  delegate (put_writes thread_id) c = record c { inner = sync.put_writes thread_id c.inner }

  unfoldable pub delegate_all :
      List SyncCall → TouchingCheckpointer saver → TouchingCheckpointer saver
  unfolding delegate
  delegate_all [] c = c
  delegate_all (call ∷ calls) c = delegate_all calls (delegate call c)

-- The file of the database: `_brainstorm_meta` may not be there yet.
pub record Database (saver : Saver) : Type 0 where
  pub inner : saver.State
  pub meta_table : Option (Rows ℕ)

abbrev created : Option (Rows ℕ) → Rows ℕ
created none = []
created (some rows) = rows

module _ {saver : Saver} (inner_setup : saver.State → saver.State) where
  -- CREATE TABLE IF NOT EXISTS, behind the set-up of the inner saver.
  unfoldable pub setup : Database saver → TouchingCheckpointer saver
  setup db = record { inner = inner_setup db.inner; meta = created db.meta_table }

-- The file that a connection leaves.
abbrev pub file_of : {saver : Saver} → TouchingCheckpointer saver → Database saver
file_of c = record { inner = c.inner; meta_table = some c.meta }

-- An open connection is used and closed; a closed one is opened.
unfoldable pub allowed : (is_open : Bool) → ConnectionEvent → Option Bool
allowed false opened = some true
allowed true used = some true
allowed true closed = some false
allowed _ _ = none

-- What a built checkpointer does to its connection, and when one is built.
abbrev Built : String → Bool → Bool → Type 0
Built kind installed connects =
    ((kind ≡ "sqlite") ⊎ ((kind ≡ "postgres") × (installed ≡ true))) × (connects ≡ true)

abbrev is_built : Outcome BuildError (Backend × Ending) → Bool
is_built (ok b) = true
is_built (raised e) = false

abbrev is_known : Outcome BuildError Backend → Bool
is_known (ok b) = true
is_known (raised e) = false

connected_closed :
    (connects : Bool) (n : ℕ) (ending : Ending) (o : Outcome BuildError Backend)
    → let (events, outcome) = connected connects n ending o in
      (follows allowed (some false) events ≡ some false)
      × ((is_built outcome ≡ true) ↔ ((is_known o ≡ true) × (connects ≡ true)))
unfolding follows allowed
connected_closed connects n ending (raised e) =
    (refl, (λ h. absurd (cc), λ h. absurd (ground (arith, h.0))))
connected_closed false n ending (ok b) =
    (refl, (λ h. absurd (cc), λ h. absurd (ground (arith, h.1))))
connected_closed true n ending (ok b) =
    (follows-times allowed true used n (closed ∷ []) refl, (λ h. (refl, refl), λ h. refl))

backend_of-known :
    (kind : String) (installed : Bool)
    → (is_known (backend_of kind installed) ≡ true)
      ↔ ((kind ≡ "sqlite") ⊎ ((kind ≡ "postgres") × (installed ≡ true)))
unfolding backend_of
backend_of-known kind installed = elim (Bool-cases (str_eq kind "sqlite")) [
  | inl e ↦ rw e (λ h. inl ((eq_iff kind "sqlite").0 e), λ h. refl)
  | inr e ↦ (
    λ h. inr ((eq_iff kind "postgres").0 (ground (arith, e, h)), ground (arith, e, h)),
    λ h. elim h [
      | inl sq ↦ absurd (let it_is = (eq_iff kind "sqlite").1 sq in cc)
      | inr (pg, there) ↦ rw (e, (eq_iff kind "postgres").1 pg, there) refl
    ],
  )
]

-- Whatever the kind and however the caller's block ends: the connection is used only while it is
-- open and is closed in the end, and the checkpointer is built exactly for SQLite, or for Postgres
-- where its package is installed, if the connection is made.
pub connection_closed :
    (kind : String) (installed connects : Bool) (n : ℕ) (ending : Ending)
    → let (events, outcome) = with_checkpointer kind installed connects n ending in
      (follows allowed (some false) events ≡ some false)
      × ((is_built outcome ≡ true) ↔ Built kind installed connects)
unfolding with_checkpointer follows
connection_closed kind installed connects n ending =
    let (events, built) = connected_closed connects n ending (backend_of kind installed) in
    let known = backend_of-known kind installed in
    (events, (λ h. let (k, c) = built.0 h in (known.0 k, c), λ (k, c). built.1 (known.1 k, c)))

module _ {saver : Saver} (sync : SyncSaver saver) where
  delegate_all-meta :
      (calls : List SyncCall) (c : TouchingCheckpointer saver)
      → (delegate_all sync calls c).meta ≡ c.meta
  unfolding delegate_all
  delegate_all-meta [] c = refl
  delegate_all-meta (read k ∷ calls) c = delegate_all-meta calls c
  delegate_all-meta (put k checkpoint ∷ calls) c = delegate_all-meta calls _
  delegate_all-meta (put_writes k ∷ calls) c = delegate_all-meta calls _

  -- No synchronous call touches a thread, also where it writes: the sweeper finds the same threads
  -- stale as before, also when the server was restarted in between.
  pub sync_untouched :
      (inner_setup : saver.State → saver.State) (calls : List SyncCall) (now : ℕ)
      (threshold_sec : ℤ) (c : TouchingCheckpointer saver)
      → list_stale now threshold_sec (setup inner_setup (file_of (delegate_all sync calls c)))
        ≡ list_stale now threshold_sec c
  unfolding list_stale setup
  sync_untouched inner_setup calls now threshold_sec c = rw (delegate_all-meta calls c) refl

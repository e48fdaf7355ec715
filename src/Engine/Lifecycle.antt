-- ===== src/Engine/Lifecycle.antt =====
-- provable_ai/engine.py: the protocols and instances that GovernanceEngine keeps in memory, and
-- what it writes of them; provable_ai/storage.py: register_protocol.
use provable_ai.Base.{
  Option, none, some, ◌≡◌, refl, List, [], ◌∷◌, ◌++◌, Bool, true, false, ◌||◌, arith, if◌then◌else◌,
}
use provable_ai.Base.Result.{Result, ok, err}
use provable_ai.Dict.{Dict, lookup, insert, lookup-insert}
use provable_ai.Text.{Text, codes, text_eq, text_eq_refl}
use provable_ai.Json.{Value, Fields, arr, obj, dumps}
use provable_ai.Json.Utf8.{utf8}
use provable_ai.Json.Lookup.{lookup_field}
use provable_ai.Crypto.{Crypto, hexdigest}
use provable_ai.Storage.{Db, commit}

-- _protocols, _instances (state and protocol_hash) and _active_protocol_hash
pub record Lifecycle : Type 0 where
  pub protocols : Dict Value
  pub instances : Dict (Value × Text)
  pub active : Option Text

pub data LifecycleError : Type 0 where
  -- TypeError of json.dumps
  not_json : LifecycleError
  no_protocol : LifecycleError
  already_exists : LifecycleError
  -- KeyError or TypeError of spec["initial_state"]
  no_initial_state : LifecycleError

unfoldable pub has_protocol : Text → List (Text × Text) → Bool
has_protocol h [] = false
has_protocol h (p ∷ ps) = text_eq p.0 h || has_protocol h ps

-- register_protocol
unfoldable pub register_protocol : Text → Text → Db → Db
register_protocol h spec_json db =
    if has_protocol h db.tables.protocols
    then db
    else commit (record db.tables { protocols = db.tables.protocols ++ (h, spec_json) ∷ [] })

abbrev compile_text :
    Crypto → Lifecycle → Db → Value → Option Text → Lifecycle × Db × Result LifecycleError Text
compile_text c e db spec none = (e, db, err not_json)
compile_text c e db spec (some t) =
    let h = hexdigest c (utf8 t) in
    (
      record e { protocols = insert h spec e.protocols; active = some h },
      register_protocol h t db,
      ok h,
    )

-- compile
unfoldable pub compile :
    Crypto → Lifecycle → Db → Value → Lifecycle × Db × Result LifecycleError Text
compile c e db spec = compile_text c e db spec (dumps spec)

abbrev pub initial_state : Option Value → Option Value
initial_state (some (obj fs)) = lookup_field (codes "initial_state") fs
initial_state _ = none

-- Whether sqlite3 takes the value as a parameter.
abbrev pub is_bindable : Value → Bool
is_bindable (arr xs) = false
is_bindable (obj fs) = false
is_bindable _ = true

-- INSERT OR IGNORE of a row without `created_at`, which is NOT NULL and has no default: no row is
-- inserted, and what was pending is committed.
abbrev pub insert_ignored : Value → Db → Db
insert_ignored state db = if is_bindable state then commit db.tables else db

abbrev create_in :
    Lifecycle → Db → Text → Text → Option Value → Lifecycle × Db × Result LifecycleError Value
create_in e db i h none = (e, db, err no_initial_state)
create_in e db i h (some state) =
    (record e { instances = insert i (state, h) e.instances }, insert_ignored state db, ok state)

abbrev create_new :
    Lifecycle
    → Db
    → Text
    → Text
    → Option (Value × Text)
    → Lifecycle × Db × Result LifecycleError Value
create_new e db i h (some known) = (e, db, err already_exists)
create_new e db i h none = create_in e db i h (initial_state (lookup h e.protocols))

abbrev create_active :
    Lifecycle → Db → Text → Option Text → Lifecycle × Db × Result LifecycleError Value
create_active e db i none = (e, db, err no_protocol)
create_active e db i (some h) = create_new e db i h (lookup i e.instances)

-- create_instance
unfoldable pub create_instance :
    Lifecycle → Db → Text → Lifecycle × Db × Result LifecycleError Value
create_instance e db i = create_active e db i e.active

ignored-tables : (state : Value) (db : Db) → (insert_ignored state db).tables ≡ db.tables
ignored-tables state db = ground arith

-- Once a spec with an initial state is compiled, an instance that the engine does not know is
-- created in that state under the hash of the spec; the same call again is refused and changes
-- nothing. No row of the instance is written: the tables stay as `compile` left them.
pub compile-create_instance :
    (c : Crypto) (e : Lifecycle) (db : Db) (fs : Fields) (t i : Text) (state : Value)
    → dumps (obj fs) ≡ some t
    → lookup_field (codes "initial_state") fs ≡ some state
    → lookup i e.instances ≡ none
    → let h = hexdigest c (utf8 t) in
      let compiled = compile c e db (obj fs) in
      let created = create_instance compiled.0 compiled.1 i in
      let again = create_instance created.0 created.1 i in
      (compiled.2 ≡ ok h)
      × (created.2 ≡ ok state)
      × (lookup i created.0.instances ≡ some (state, h))
      × (created.1.tables ≡ compiled.1.tables)
      × (again ≡ (created.0, created.1, err already_exists))
unfolding compile create_instance
compile-create_instance c e db fs t i state written initial unknown =
    let h = hexdigest c (utf8 t) in
    let kept : lookup h (insert h (obj fs) e.protocols) ≡ some (obj fs) =
      ground (arith, lookup-insert h h (obj fs) e.protocols, text_eq_refl h) in
    let known : lookup i (insert i (state, h) e.instances) ≡ some (state, h) =
      ground (arith, lookup-insert i i (state, h) e.instances, text_eq_refl i) in
    rw written (
      rw unknown (
        rw kept (
          rw initial
            (refl, refl, known, ignored-tables state (register_protocol h t db), rw known refl))))

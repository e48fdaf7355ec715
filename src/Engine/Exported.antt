-- ===== src/Engine/Exported.antt =====
-- An export verifies.
use provable_ai.Storage.Chain.{IsLedger, get_ledger_chain_lem}
use provable_ai.Engine.Archive.{IsArchived}
use provable_ai.Engine.{default_tenant, Tables}
use provable_ai.Storage.Queries.{freeze_instance, get_ledger_chain}
use provable_ai.Json.Utf8.{utf8}
use provable_ai.Base.Result.{Result, ok}
use provable_ai.Storage.{Db, Row, chain_of}
use provable_ai.Package.Offline.Forged.{join_hashes-linked}
use provable_ai.Verifier.{verify_ed25519, verify_bytes}
use provable_ai.Base.{
  false, ℕ, Option, none, some, ◌≡◌, refl, [], ◌∷◌, true, arith, length, suc, inr, List, ◌≢◌, All,
  ◌++◌, ◌∙◌, ap, subst, sym,
}
use provable_ai.Text.{Text, Bytes, text_eq}
use provable_ai.Json.{Value, Items, str, cons, dumps, dump_items, join, nil}
use provable_ai.Json.Lookup.{get, lookup_field}
use provable_ai.Canonical.{genesis_hash}
use provable_ai.Canonical.Hashes.{fromhex-hexdigest}
use provable_ai.Json.Encode.{dump_bytes, has_long_int, has_long_item}
use provable_ai.Json.Surrogates.{any_surrogate, has_surrogate-wrapped}
use provable_ai.Crypto.{Crypto, hexdigest}
use provable_ai.Signer.{Signer}
use provable_ai.Package.{
  compute_instance_root, compute_package_hash, verify_ed25519_hex, truthy, verify_texts,
  dumped_hash,
}
use provable_ai.Package.Parts.{IsLinkedEntries}
use provable_ai.Package.Sound.{IsAccepted}
use provable_ai.Engine.Export.{
  package_value, load_proofs, Loads, ExportError, export_proof, item_count, sign_chain,
  root_of_chain, package_of, SignedRoot,
}
use provable_ai.Engine.Loaded.{
  final_state-some, AllHaveState, IsLoaded, rows-IsLoaded, get_ledger_chain-All,
}

-- The signer answers for every digest.
abbrev pub IsAvailable : {c : Crypto} → Signer c → Type 0
IsAvailable {c} s = (b : Bytes) → (t : Text) × (s.sign_hash (c.sha256 b) ≡ some t)

pub with_key :
    (c : Crypto) (key : Option Bytes) (m : Bytes) (sig : Option Bytes)
    → verify_bytes c key m sig ≡ true
    → verify_texts c key (some m) sig ≡ true
with_key c (some k) m (some s) h = h
with_key c (some k) m none h = cc
with_key c none m s h = cc

-- The signature of a root, as the package verifier sees it.
signed_hex-verifies :
    {c : Crypto} (s : Signer c) (b : Bytes) (t : Text)
    → s.sign_hash (c.sha256 b) ≡ some t
    → verify_ed25519_hex c (str s.public_key) (hexdigest c b) (str t) ≡ true
unfolding verify_ed25519_hex verify_ed25519
signed_hex-verifies {c} s b t e =
    rw (fromhex-hexdigest c b)
      (with_key c _ _ _ (s.sign_hash-verifies (c.sha256 b) t (c.sha256-bytes b) e))

pub long_truthy : (t : Text) (n : ℕ) → length t ≡ suc n → truthy (str t) ≡ true
long_truthy [] n e = absurd (omega (arith, e))
long_truthy (a ∷ t) n e = refl

-- The package of a signed root over linked entries, with their package hash.
package_value-IsAccepted :
    {c : Crypto} (s : Signer c) (i : Text) (first : Value) (rest : Items) (b : Bytes)
    (sig hash : Text)
    → IsLinkedEntries c genesis_hash (cons first rest)
    → AllHaveState (cons first rest)
    → compute_instance_root c (cons first rest) ≡ some (hexdigest c b)
    → s.sign_hash (c.sha256 b) ≡ some sig
    → compute_package_hash c (cons first rest) ≡ some hash
    → IsAccepted c (
        package_value s i
          (record { proof_dicts = cons first rest; instance_root = hexdigest c b; sig_hex = sig })
          hash)
unfolding get lookup_field text_eq
package_value-IsAccepted {c} s i first rest b sig hash linked states rooted signed hashed =
    let (state, final) = final_state-some first rest states in
    record {
      ledger = cons first rest;
      opened = record {
        kind = refl;
        block = _;
        read_block = refl;
        first = first;
        rest = rest;
        more = refl;
        read_ledger = refl;
      };
      untampered = record { stored = str hash; read = refl; same = inr (hash, hashed, refl) };
      linked = linked;
      state = state;
      final_state = final;
      root_signed = record {
        public_key = str s.public_key;
        read_key = refl;
        has_key = long_truthy s.public_key 63 s.public_key-hex.1;
        sig_hex = str sig;
        read_signature = refl;
        has_signature = long_truthy sig 127 (s.sign_hash-hex (c.sha256 b) sig signed).1;
        block = _;
        read_block = refl;
        stored_root = str (hexdigest c b);
        read_root = refl;
        root = hexdigest c b;
        computed = rooted;
        same_root = inr refl;
        signed = signed_hex-verifies s b sig signed;
      };
    }

loaded-root :
    (c : Crypto) (entries : Items)
    → IsLinkedEntries c genesis_hash entries
    → (b : Bytes) × (compute_instance_root c entries ≡ some (hexdigest c b))
unfolding compute_instance_root
loaded-root c entries linked =
    let (t, joined, clean) = join_hashes-linked c genesis_hash entries linked in
    (utf8 t, rw joined (rw clean refl))

loaded-hash :
    (c : Crypto) (entries : Items) (texts : List Text)
    → dump_items entries ≡ some texts
    → (has_long_item entries ≡ false) × (any_surrogate texts ≡ false)
    → (h : Text) × (compute_package_hash c entries ≡ some h)
unfolding compute_package_hash dumped_hash dumps dump_bytes has_long_int
loaded-hash c entries texts e (short, clean) = (
  hexdigest c (utf8 (91 ∷ (join texts ++ 93 ∷ []))),
  rw short (rw e (rw (has_surrogate-wrapped 91 93 texts refl refl) (rw clean refl))),
)

-- What an export is: the instance frozen, and a package that verifies.
pub record IsExported (c : Crypto) (i : Text) (db : Db) (answer : Db × Result ExportError Value)
    : Type 0 where
  pub exported : Value
  pub returned : answer.1 ≡ ok exported
  pub frozen : answer.0 ≡ freeze_instance i default_tenant db
  pub accepted : IsAccepted c exported

counted-some :
    (entries : Items) (n : ℕ)
    → item_count entries ≡ suc n
    → (first : Value) × (rest : Items) × (entries ≡ cons first rest)
counted-some nil n e = absurd (omega (arith, e))
counted-some (cons v xs) n e = (v, xs, refl)

pub not_empty-length : (rows : List Row) → rows ≢ [] → (n : ℕ) × (length rows ≡ suc n)
not_empty-length [] ne = absurd (ne refl)
not_empty-length (r ∷ rs) ne = (length rs, refl)

sign_chain-ok :
    {c : Crypto} (s : Signer c) (loads : Loads) (i : Text) (db : Tables) (entries : Items)
    (b : Bytes) (sig : Text)
    → load_proofs loads (get_ledger_chain db i default_tenant) ≡ some entries
    → compute_instance_root c entries ≡ some (hexdigest c b)
    → s.sign_hash (c.sha256 b) ≡ some sig
    → sign_chain s loads db i
      ≡ ok (record { proof_dicts = entries; instance_root = hexdigest c b; sig_hex = sig })
unfolding sign_chain root_of_chain
sign_chain-ok {c} s loads i db entries b sig loaded rooted signed =
    rw loaded (rw rooted (rw (fromhex-hexdigest c b) (rw signed refl)))

signed-IsExported :
    {c : Crypto} (s : Signer c) (loads : Loads) (i : Text) (db : Db) (first : Value) (rest : Items)
    (texts : List Text)
    → load_proofs loads (get_ledger_chain db.tables i default_tenant) ≡ some (cons first rest)
    → IsLinkedEntries c genesis_hash (cons first rest)
    → AllHaveState (cons first rest)
    → dump_items (cons first rest) ≡ some texts
    → (has_long_item (cons first rest) ≡ false) × (any_surrogate texts ≡ false)
    → IsAvailable s
    → IsExported c i db (export_proof s loads i db)
unfolding export_proof package_of
signed-IsExported {c} s loads i db first rest texts loaded linked states dumped encodable
      available =
    let (b, rooted) = loaded-root c (cons first rest) linked in
    let (hash, hashed) = loaded-hash c (cons first rest) texts dumped encodable in
    let (sig, signed) = available b in
    let root : SignedRoot = record {
      proof_dicts = cons first rest;
      instance_root = hexdigest c b;
      sig_hex = sig;
    } in
    let chained = sign_chain-ok s loads i db.tables (cons first rest) b sig loaded rooted signed in
    record {
      exported = package_value s i root hash;
      returned = rw chained (rw hashed refl);
      frozen = rw chained refl;
      accepted =
          package_value-IsAccepted s i first rest b sig hash linked states rooted signed hashed;
    }

loaded-IsExported :
    {c : Crypto} (s : Signer c) (loads : Loads) (i : Text) (db : Db) (n : ℕ)
    (l : IsLoaded c loads genesis_hash (get_ledger_chain db.tables i default_tenant))
    → item_count l.entries ≡ suc n
    → IsAvailable s
    → IsExported c i db (export_proof s loads i db)
loaded-IsExported {c} s loads i db n l count available =
    let (first, rest, more) = counted-some l.entries n count in
    signed-IsExported s loads i db first rest l.texts (l.loaded ∙ ap some more)
      (subst (IsLinkedEntries c genesis_hash) more l.linked) (subst AllHaveState more l.states)
      (ap dump_items (sym more) ∙ l.dumped)
      (ap has_long_item (sym more) ∙ l.encodable.0, l.encodable.1) available

-- An instance with rows, in a ledger whose chains are linked and whose rows are archived, is
-- exported and frozen if the signer answers, and the package is one that `verify_package` passes.
pub export_proof-IsExported :
    {c : Crypto} (s : Signer c) (loads : Loads) (i : Text) (db : Db)
    → IsLedger db.tables.ledger
    → All (IsArchived c loads) db.tables.ledger
    → chain_of default_tenant i db.tables.ledger ≢ []
    → IsAvailable s
    → IsExported c i db (export_proof s loads i db)
export_proof-IsExported {c} s loads i db linked archived rows available =
    let (chain, same_length) = get_ledger_chain_lem db.tables i default_tenant linked in
    let (n, size) = not_empty-length (chain_of default_tenant i db.tables.ledger) rows in
    let l =
      rows-IsLoaded c loads genesis_hash 1 (get_ledger_chain db.tables i default_tenant)
        (get_ledger_chain-All (IsArchived c loads) db.tables i default_tenant archived) chain in
    loaded-IsExported s loads i db n l (l.counted ∙ same_length ∙ size) available

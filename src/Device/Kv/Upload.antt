-- ===== src/Device/Kv/Upload.antt =====
-- _validate_catalog_yaml_upload of backend/src/api/routes_device.py, and what a catalog that a POST has
-- stored has passed. PyYAML's safe_load (`none`: a YAMLError), the test for a dict and pydantic's
-- Catalog.model_validate (`none`: a ValidationError) are parameters.
use mathlib.Core.Path.{subst}
use stra2us.Prelude.{
  ℕ, Text, Bytes, Bool, true, false, List, [], ◌∷◌, Option, none, some, not, ◌&&◌, ◌≡◌, refl, sym,
  ap, ◌∙◌, if◌then◌else◌,
}
use stra2us.Result.{Result, Checked, ok, err, http, guard, ◌>>=◌, ◌>>◌, >>=-eq-ok, >>-eq-ok}
use stra2us.Value.{Value, str}
use stra2us.Redis.{Redis}
use stra2us.Lint.{Limits, LintIssue}
use stra2us.Lint.Publication.{
  LintedCatalog, errors, lint_catalog, AreColors, lint_catalog-AreColors,
}
use stra2us.Device.{Libraries, Request, Context, Response, kv_key, or_raise, packed_body}
use stra2us.Device.Authentication.{or_raise-some, guard-true}
use stra2us.Device.Kv.{write_kv, is_one, is_catalog_yaml_key, is_empty}
use stra2us.Device.Kv.Frame.{write_kv-Written, store_kv_self}

-- `isinstance(text, str)`
unfoldable pub text_of_packed : Option Value → Result Text
text_of_packed (some (str text)) = ok text
text_of_packed _ = err (http 400)

abbrev pub is_clean : List LintIssue → Bool
is_clean [] = true
is_clean (_ ∷ _) = false

ok-eq : {a b : Bytes} → ok a ≡ ok b → a ≡ b
ok-eq h = cc

gate_of_if :
    (b c : Bool) {check : Checked}
    → b ≡ true
    → c ≡ false
    → (if b && not c then check else ok tt) ≡ ok tt
    → check ≡ ok tt
gate_of_if true false hb hc h = h
gate_of_if true true hb hc h = cc
gate_of_if false c hb hc h = cc

module _ (lib : Libraries) (Doc : Type 0) (safe_load : Text → Option Doc) (is_dict : Doc → Bool)
    (model_validate : Doc → Option LintedCatalog) (limits : Limits) (compiles : Text → Bool) where
  unfoldable pub validate_catalog_yaml_upload : Bytes → Checked
  unfolding text_of_packed errors lint_catalog
  validate_catalog_yaml_upload packed_bytes = do
    text ← text_of_packed (lib.unpackb packed_bytes)
    doc ← or_raise (http 400) (safe_load text)
    guard (is_dict doc) (http 400)
    cat ← or_raise (http 400) (model_validate doc)
    guard (is_clean (errors (lint_catalog limits compiles none cat))) (http 400)

  -- A stored body that is a catalog: a text, of a YAML mapping, that the schema takes, without an
  -- error of the linter, and with well-formed colours.
  pub record IsCatalog (body : Bytes) : Type 0 where
    pub text : Text
    pub packed : lib.unpackb body ≡ some (str text)
    pub doc : Doc
    pub loaded : safe_load text ≡ some doc
    pub mapping : is_dict doc ≡ true
    pub catalog : LintedCatalog
    pub validated : model_validate doc ≡ some catalog
    pub clean : errors (lint_catalog limits compiles none catalog) ≡ []
    pub colored : AreColors catalog.theme

  text_of_packed_lem :
      (v : Option Value) (text : Text) → text_of_packed v ≡ ok text → v ≡ some (str text)
  unfolding text_of_packed
  text_of_packed_lem (some (str t)) text h = cc
  text_of_packed_lem _ text h = cc

  is_clean_lem : (issues : List LintIssue) → is_clean issues ≡ true → issues ≡ []
  is_clean_lem [] h = refl
  is_clean_lem (i ∷ issues) h = cc

  validate_catalog_yaml_upload-IsCatalog :
      (body : Bytes) → validate_catalog_yaml_upload body ≡ ok tt → IsCatalog body
  unfolding validate_catalog_yaml_upload
  validate_catalog_yaml_upload-IsCatalog body h =
      let (text, packed, h1) = >>=-eq-ok (text_of_packed (lib.unpackb body)) _ h in
      let (doc, loaded, h2) = >>=-eq-ok (or_raise (http 400) (safe_load text)) _ h1 in
      let (mapping, h3) = >>-eq-ok (guard (is_dict doc) (http 400)) _ h2 in
      let (catalog, valid, h4) = >>=-eq-ok (or_raise (http 400) (model_validate doc)) _ h3 in
      let issues = errors (lint_catalog limits compiles none catalog) in
      let clean = is_clean_lem issues (guard-true (is_clean issues) (http 400) h4) in
      record {
        text = text;
        packed = text_of_packed_lem (lib.unpackb body) text packed;
        doc = doc;
        loaded = or_raise-some (http 400) (safe_load text) loaded;
        mapping = guard-true (is_dict doc) (http 400) mapping;
        catalog = catalog;
        validated = or_raise-some (http 400) (model_validate doc) valid;
        clean = clean;
        colored = lint_catalog-AreColors limits compiles catalog clean;
      }

  -- Where the upload gate is the argument of write_kv, a POST that succeeds to the key of a
  -- catalog, with a body that is not empty, has stored that body, and it is a catalog: msgpack
  -- reads a text from it, the text is the YAML of a mapping, the schema takes the mapping,
  -- lint_catalog finds no error in the catalog, and the colours of its theme have the pattern.
  pub write_kv-IsCatalog :
      (r : Redis) (key : Text) (request : Request) (context : Context) (sent : ℕ) (s t : r.State)
      (response : Response) (body : Bytes)
      → write_kv lib r validate_catalog_yaml_upload key request context sent s ≡ (ok response, t)
      → is_catalog_yaml_key key ≡ true
      → packed_body lib request ≡ ok body
      → is_empty body ≡ false
      → (r.get (kv_key key) t ≡ some body) × IsCatalog body
  write_kv-IsCatalog r key request context sent s t response body h named packed some_body =
      let w =
        write_kv-Written lib r validate_catalog_yaml_upload key request context sent s t response
          h in
      let same : w.body ≡ body = ok-eq (sym w.packed ∙ packed) in
      let empty = ap is_empty same ∙ some_body in
      let value = (store_kv_self r key w.body (is_one request.x_encrypted) s).0 in
      let passed : validate_catalog_yaml_upload w.body ≡ ok tt =
        gate_of_if (is_catalog_yaml_key key) (is_empty w.body) named empty w.passed in
      (
        rw w.after (value ∙ ap some same),
        subst IsCatalog same (validate_catalog_yaml_upload-IsCatalog w.body passed),
      )

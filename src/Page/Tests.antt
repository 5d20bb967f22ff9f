-- ===== src/Page/Tests.antt =====
-- Examples of the page's parts.
use stra2us.Prelude.{
  ℕ, ◌+◌, Text, Bytes, codes, Bool, false, List, [], ◌∷◌, ◌++◌, Option, none, some, ◌≡◌, refl, ◌⊎◌,
  inl, map, length, any, true, pos,
}
use stra2us.Result.{Result, Checked, ok}
use stra2us.Value.{Value, str, int, Fields, field, end, find, is_text}
use stra2us.Redis.Memory.{memory, empty, Store}
use stra2us.Device.{Request, Response, packed_body, signed_response}
use stra2us.Device.Kv.{write_kv, is_one}
use stra2us.Builtins.{parse_int}
use stra2us.Catalog.{kv_path, Real, whole}
use stra2us.Fixtures.{libraries, client, request_of}
use stra2us.Page.Values.{resolve_value, not_none, to_form_string}
use stra2us.Page.Values.Writes.{resolve_value-write_kv}
use stra2us.Page.Theme.{is_slug, serialize_theme_css}
use stra2us.Page.Theme.OneRule.{IsPlain, serialize_theme_css_one_rule}
use stra2us.Page.Widgets.{VarDict, enum_choices, effective_min, effective_max}
use stra2us.Page.Widgets.Render.{clamped, render_widget}
use stra2us.Page.Widgets.Markup.{Leads, outside}
use stra2us.Page.Widgets.Wellformed.{render_widget-Leads}
use stra2us.Page.Widgets.OffSpec.{is_off_spec, clamped-is_off_spec}
use stra2us.Page.Blocks.{Key, clear, render_all}
use stra2us.Page.Blocks.History.{first_times, rendering, call_of, render_all-clear}

abbrev plain : Request
plain = request_of (codes "hi") none

abbrev any_catalog : Bytes → Checked
any_catalog _ = ok tt

abbrev repr : Value → Text
repr _ = []

abbrev place : Option Text
place = some (codes "d1")

abbrev attempt : (Result Response) × Store
attempt =
    write_kv libraries memory any_catalog (kv_path (codes "app") (codes "x") place) plain client 100
      empty

abbrev sent : Response
sent = elim attempt.0 [
  | ok response ↦ response
  | _ ↦ record {
    content = [];
    status_code = 0;
    x_response_timestamp = [];
    x_response_signature = [];
  }
]

attempt_ok : attempt ≡ (ok sent, attempt.1)
unfolding write_kv kv_path stra2us.Acl.check_acl stra2us.Prelude.text_eq stra2us.Prelude.starts_with
    packed_body stra2us.Prelude.occurs_in stra2us.Builtins.Utf8.decode
    stra2us.Device.Kv.is_catalog_yaml_key stra2us.Device.signed_msgpack
    stra2us.Security.sign_payload stra2us.Builtins.Hex.fromhex
attempt_ok = refl

resolve_value-write_kv_example :
    (body : Bytes) × (packed_body libraries plain ≡ ok body)
    × ((v : Value)
        → not_none (libraries.unpackb body) ≡ some v
        → resolve_value repr libraries.unpackb memory
            (codes "app")
            (codes "d1")
            (codes "x")
            []
            attempt.1
          ≡ record {
            value = some (to_form_string repr v);
            encrypted = is_one plain.x_encrypted;
            from_default = false;
          })
resolve_value-write_kv_example =
    resolve_value-write_kv repr libraries memory any_catalog (codes "app") (codes "d1") (codes "x")
      place plain client 100 empty attempt.1 sent [] attempt_ok (inl refl)

abbrev purple : Fields
purple =
    field (codes "primary_color") (str (codes "#5b3fb8"))
      (field (codes "font_family") (str (codes "x; }")) end)

serialize_theme_css_one_rule_example :
    ((is_slug (codes "app") ≡ false) × (serialize_theme_css (codes "app") (some purple) ≡ []))
    ⊎ ((body : Text) × (serialize_theme_css (codes "app") (some purple)
          ≡ codes "[data-app=\"" ++ codes "app" ++ codes "\"] {" ++ body ++ codes "}\n")
        × IsPlain (codes "app")
        × IsPlain body)
serialize_theme_css_one_rule_example = serialize_theme_css_one_rule (codes "app") (some purple)

abbrev block : Text → Key
block b = record { app = codes "a"; publish_hash = codes "1"; block_id = b }

abbrev blocks : List Key
blocks = block (codes "header") ∷ block (codes "footer") ∷ block (codes "header") ∷ []

abbrev sanitize : Text → Text → Text
sanitize source app = codes "<p>" ++ source

abbrev source_of : Key → Text
source_of k = k.block_id

render_all-clear_example :
    ((render_all sanitize (map (call_of sanitize source_of) blocks) clear).0
      ≡ map (rendering sanitize source_of) blocks)
    × ((render_all sanitize (map (call_of sanitize source_of) blocks) clear).1.misses
        ≡ first_times [] blocks)
    × ((render_all sanitize (map (call_of sanitize source_of) blocks) clear).1.hits
          + (render_all sanitize (map (call_of sanitize source_of) blocks) clear).1.misses
        ≡ length blocks)
render_all-clear_example = render_all-clear sanitize source_of blocks

abbrev float_of : Value → Option Real
float_of (int z) = some (whole z)
float_of (str s) = elim (parse_int s) [ some z ↦ some (whole z) | none ↦ none ]
float_of _ = none

abbrev slider : VarDict
slider =
    (codes "type", str (codes "int"))
    ∷ (codes "widget", str (codes "slider"))
    ∷ (codes "min", int (pos 0))
    ∷ (codes "max", int (pos 9))
    ∷ []

abbrev slider_html : Text
slider_html =
    codes
      "<input type=\"range\" name=\"x\" data-original=\"&lt;b&gt;\" min=\"0\" max=\"9\" value=\"0\">"

render_widget-slider :
    render_widget repr float_of (codes "x") slider (some (codes "<b>")) ≡ ok slider_html
unfolding render_widget stra2us.Prelude.text_eq stra2us.Prelude.join stra2us.Backup.str_of
    stra2us.Builtins.str_int parse_int
render_widget-slider = refl

render_widget-Leads_example : Leads outside slider_html outside
render_widget-Leads_example =
    render_widget-Leads repr float_of (codes "x") slider (some (codes "<b>")) slider_html
      render_widget-slider

abbrev any_match : Text → Text → Option Bool
any_match _ _ = some true

in_spec : is_off_spec repr float_of any_match slider (some (codes "7")) ≡ ok false
unfolding is_off_spec stra2us.Prelude.text_eq parse_int stra2us.Lint.Fields.exceeds
in_spec = refl

no_choices : enum_choices repr slider ≡ ok none
unfolding enum_choices stra2us.Prelude.text_eq
no_choices = refl

is_numeric_slider :
    any (λ t. is_text t (find (codes "type") slider)) (codes "int" ∷ codes "float" ∷ []) ≡ true
unfolding stra2us.Prelude.text_eq
is_numeric_slider = refl

least_slider : effective_min slider ≡ some (int (pos 0))
unfolding effective_min stra2us.Prelude.text_eq
least_slider = refl

most_slider : effective_max slider ≡ some (int (pos 9))
unfolding effective_max stra2us.Prelude.text_eq
most_slider = refl

clamped-is_off_spec_example :
    clamped repr float_of (int (pos 0)) (int (pos 9)) (some (codes "7")) ≡ codes "7"
clamped-is_off_spec_example =
    clamped-is_off_spec repr float_of any_match slider (codes "7") (int (pos 0)) (int (pos 9))
      in_spec no_choices is_numeric_slider least_slider most_slider

-- ===== src/Page/Widgets/OffSpec.antt =====
-- is_off_spec of backend/src/services/widget_renderer.py, which warns of a value that the catalog's
-- hints do not allow, and what the slider shows of such a value.
use stra2us.Prelude.{
  arith, ℕ, Text, codes, Bool, true, false, List, [], ◌∷◌, Option, none, some, not, ◌||◌, any,
  text_eq, length, if◌then◌else◌, pos, leℤ, ◌≡◌, ◌∙◌, sym, refl,
}
use stra2us.Result.{Result, ok, err, fault, ◌>>=◌}
use stra2us.Value.{Value, int, bool, float, str, find, is_text}
use stra2us.Backup.{str_of}
use stra2us.Session.{int_of_bool}
use stra2us.Device.{or_raise}
use stra2us.Catalog.{Real, greater, whole}
use stra2us.Page.Values.{not_none}
use stra2us.Page.Widgets.{VarDict, effective_min, effective_max, enum_choices}
use stra2us.Page.Widgets.Render.{clamped}

module _ (repr : Value → Text) (float_of : Value → Option Real)
    (fullmatch : Text → Text → Option Bool) where
  abbrev pub is_listed : Text → List (Value × Text) → Bool
  is_listed current choices =
      any (λ c. is_text current (some c.0)) choices
      || any (λ c. text_eq (str_of repr c.0) current) choices

  -- `lo is not None and n < float(lo)`
  abbrev pub below : Real → Option Value → Result Bool
  below n none = ok false
  below n (some lo) = do l ← or_raise fault (float_of lo); ok (greater l n)

  abbrev pub above : Real → Option Value → Result Bool
  above n none = ok false
  above n (some hi) = do h ← or_raise fault (float_of hi); ok (greater n h)

  abbrev pub off_range : Option Real → Option Value → Option Value → Result Bool
  off_range none lo hi = ok true
  off_range (some n) lo hi = do under ← below n lo; if under then ok true else above n hi

  -- `len(str(current)) > max_len`
  abbrev pub longer_than : Text → Value → Result Bool
  longer_than current (int z) = ok (not (leℤ (pos (length current)) z))
  longer_than current (bool b) = ok (not (leℤ (pos (length current)) (int_of_bool b)))
  longer_than current (float t) = do
    x ← or_raise fault (float_of (float t))
    ok (greater (whole (pos (length current))) x)
  longer_than current _ = err fault

  abbrev pub too_long : Text → Option Value → Result Bool
  too_long current none = ok false
  too_long current (some max_len) = longer_than current max_len

  -- A malformed pattern counts as none.
  abbrev pub mismatches : Text → Option Value → Result Bool
  mismatches current none = ok false
  mismatches current (some (str pattern)) = elim (fullmatch pattern current) [
    | some false ↦ ok true
    | _ ↦ ok false
  ]
  mismatches current (some _) = err fault

  abbrev pub off_string : VarDict → Text → Result Bool
  off_string var current = do
    long ← too_long current (not_none (find (codes "max_length") var))
    if long then ok true else mismatches current (not_none (find (codes "pattern") var))

  abbrev pub off_typed : VarDict → Text → Result Bool
  off_typed var current =
      if any (λ t. is_text t (find (codes "type") var)) (codes "int" ∷ codes "float" ∷ [])
      then off_range (float_of (str current)) (effective_min var) (effective_max var)
      else if is_text (codes "string") (find (codes "type") var)
      then off_string var current
      else ok false

  abbrev pub off_choices : VarDict → Text → Option (List (Value × Text)) → Result Bool
  off_choices var current (some choices) = ok (not (is_listed current choices))
  off_choices var current none = off_typed var current

  unfoldable pub is_off_spec : VarDict → Option Text → Result Bool
  unfolding enum_choices not_none effective_min effective_max greater
  is_off_spec var none = ok false
  is_off_spec var (some []) = ok false
  is_off_spec var (some (c ∷ s)) = do
    choices ← enum_choices repr var
    off_choices var (c ∷ s) choices

  off_range-clamped :
      (lo hi : Value) (c : ℕ) (s : Text)
      → off_range (float_of (str (c ∷ s))) (some lo) (some hi) ≡ ok false
      → clamped repr float_of lo hi (some (c ∷ s)) ≡ c ∷ s
  unfolding clamped
  off_range-clamped lo hi c s h = ground arith

  -- For a numeric variable without choices and with both bounds, a value that is_off_spec lets
  -- pass is shown by the slider unchanged.
  pub clamped-is_off_spec :
      (var : VarDict) (current : Text) (lo hi : Value)
      → is_off_spec var (some current) ≡ ok false
      → enum_choices repr var ≡ ok none
      → any (λ t. is_text t (find (codes "type") var)) (codes "int" ∷ codes "float" ∷ []) ≡ true
      → effective_min var ≡ some lo
      → effective_max var ≡ some hi
      → clamped repr float_of lo hi (some current) ≡ current
  unfolding is_off_spec clamped
  clamped-is_off_spec var [] lo hi h plain numeric least most = refl
  clamped-is_off_spec var (c ∷ s) lo hi h plain numeric least most =
      let e : is_off_spec var (some (c ∷ s))
          ≡ off_range (float_of (str (c ∷ s))) (some lo) (some hi) =
        rw (plain, is_off_spec) (rw numeric (rw least (rw most refl))) in
      off_range-clamped lo hi c s (sym e ∙ h)

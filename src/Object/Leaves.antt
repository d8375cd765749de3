-- ===== src/Object/Leaves.antt =====
-- pkg/webhook/object.go: traverseObject changes the texts of an object, one by one, and nothing else.
use vault_secrets_webhook.Base.{
  String, ◌≡◌, ◌∙◌, refl, ap, false, Option, List, [], ◌∷◌, ◌++◌, arith, Result, ok, err, ◌>>=◌,
  >>=-eq-ok, ok-injective, All, All-split, sym, ap₂, ◌||◌,
}
use vault_secrets_webhook.Common.{has_vault_prefix}
use vault_secrets_webhook.Injector.{Injector, Sdk}
use vault_secrets_webhook.Kube.{WebhookError}
use vault_secrets_webhook.Object.{
  Json, text, map_of, slice_of, other_value, Elements, end, element, fill, visit, visit_all,
  traverse_object,
}

-- The texts of a value, in the order of its elements.
unfoldable mutual
  pub leaves : Json → List String
  leaves (text s) = s ∷ []
  leaves (map_of elements) = leaves_of elements
  leaves (slice_of elements) = leaves_of elements
  leaves (other_value s) = []

  pub leaves_of : Elements → List String
  leaves_of end = []
  leaves_of (element key value elements) = leaves value ++ leaves_of elements

-- The value with every text blank.
unfoldable mutual
  pub skeleton : Json → Json
  skeleton (text s) = text ""
  skeleton (map_of elements) = map_of (skeleton_of elements)
  skeleton (slice_of elements) = slice_of (skeleton_of elements)
  skeleton (other_value s) = other_value s

  pub skeleton_of : Elements → Elements
  skeleton_of end = end
  skeleton_of (element key value elements) = element key (skeleton value) (skeleton_of elements)

module _ (sdk : Sdk) (injector : Injector) where
  -- Fills each text of a list, up to the first that fails.
  unfoldable pub fill_each : List String → Result WebhookError (List String)
  fill_each [] = ok []
  fill_each (s ∷ texts) = do value ← fill sdk injector s; rest ← fill_each texts; ok (value ∷ rest)

  -- Two lists one after the other, and a text before them.
  cons_append :
      (first : Result WebhookError String) (xs ys : Result WebhookError (List String))
      → (first >>= λ value. (xs >>= λ a. ys >>= λ b. ok (a ++ b)) >>= λ rest. ok (value ∷ rest))
        ≡ ((first >>= λ value. xs >>= λ rest. ok (value ∷ rest)) >>= λ a. ys >>= λ b. ok (a ++ b))
  cons_append (err f) xs ys = refl
  cons_append (ok value) (err f) ys = refl
  cons_append (ok value) (ok a) (err f) = refl
  cons_append (ok value) (ok a) (ok b) = refl

  as_is : (r : Result WebhookError (List String)) → r ≡ (r >>= λ b. ok b)
  as_is (ok b) = refl
  as_is (err f) = refl

  fill_each-append :
      (xs ys : List String)
      → fill_each (xs ++ ys) ≡ (fill_each xs >>= λ a. fill_each ys >>= λ b. ok (a ++ b))
  unfolding fill_each
  fill_each-append [] ys = as_is (fill_each ys)
  fill_each-append (x ∷ xs) ys =
      ap (λ r. fill sdk injector x >>= λ value. r >>= λ rest. ok (value ∷ rest))
        (fill_each-append xs ys)
      ∙ cons_append (fill sdk injector x) (fill_each xs) (fill_each ys)

  leaf :
      (r : Result WebhookError String)
      → ((r >>= λ value. ok (text value)) >>= λ w. ok (leaves w)) ≡ (r >>= λ value. ok (value ∷ []))
  unfolding leaves
  leaf (ok value) = refl
  leaf (err f) = refl

  in_map :
      (r : Result WebhookError Elements)
      → ((r >>= λ es. ok (map_of es)) >>= λ w. ok (leaves w)) ≡ (r >>= λ es. ok (leaves_of es))
  unfolding leaves
  in_map (ok es) = refl
  in_map (err f) = refl

  in_slice :
      (r : Result WebhookError Elements)
      → ((r >>= λ es. ok (slice_of es)) >>= λ w. ok (leaves w)) ≡ (r >>= λ es. ok (leaves_of es))
  unfolding leaves
  in_slice (ok es) = refl
  in_slice (err f) = refl

  in_element :
      (key : Option String) (r : Result WebhookError Json) (q : Result WebhookError Elements)
      → ((r >>= λ v. q >>= λ es. ok (element key v es)) >>= λ w. ok (leaves_of w))
        ≡ ((r >>= λ w. ok (leaves w)) >>= λ a. (q >>= λ w. ok (leaves_of w)) >>= λ b. ok (a ++ b))
  unfolding leaves
  in_element key (err f) q = refl
  in_element key (ok v) (err f) = refl
  in_element key (ok v) (ok es) = refl

  mutual
    unfolding leaves visit fill_each

    visit-leaves : (v : Json) → (visit sdk injector v >>= λ w. ok (leaves w)) ≡ fill_each (leaves v)
    visit-leaves (text s) = leaf (fill sdk injector s)
    visit-leaves (map_of es) = in_map (visit_all sdk injector es) ∙ visit_all-leaves es
    visit-leaves (slice_of es) = in_slice (visit_all sdk injector es) ∙ visit_all-leaves es
    visit-leaves (other_value s) = refl

    visit_all-leaves :
        (es : Elements)
        → (visit_all sdk injector es >>= λ w. ok (leaves_of w)) ≡ fill_each (leaves_of es)
    visit_all-leaves end = refl
    visit_all-leaves (element key v es) =
        in_element key (visit sdk injector v) (visit_all sdk injector es)
        ∙ ap₂ (λ r q. r >>= λ a. q >>= λ b. ok (a ++ b)) (visit-leaves v) (visit_all-leaves es)
        ∙ sym (fill_each-append (leaves v) (leaves_of es))

  mutual
    unfolding skeleton visit

    visit-skeleton : (v w : Json) → visit sdk injector v ≡ ok w → skeleton w ≡ skeleton v
    visit-skeleton (text s) w e =
        let (value, _, same) = >>=-eq-ok (fill sdk injector s) (λ value. ok (text value)) e in
        ap skeleton (sym (ok-injective same))
    visit-skeleton (map_of es) w e =
        let (es', visited, same) = >>=-eq-ok (visit_all sdk injector es) (λ es. ok (map_of es)) e in
        ap skeleton (sym (ok-injective same)) ∙ ap map_of (visit_all-skeleton es es' visited)
    visit-skeleton (slice_of es) w e =
        let (es', visited, same) =
          >>=-eq-ok (visit_all sdk injector es) (λ es. ok (slice_of es)) e in
        ap skeleton (sym (ok-injective same)) ∙ ap slice_of (visit_all-skeleton es es' visited)
    visit-skeleton (other_value s) w e = ap skeleton (sym (ok-injective e))

    visit_all-skeleton :
        (es fs : Elements) → visit_all sdk injector es ≡ ok fs → skeleton_of fs ≡ skeleton_of es
    visit_all-skeleton end fs e = ap skeleton_of (sym (ok-injective e))
    visit_all-skeleton (element key v es) fs e =
        let (w, visited, more) =
          >>=-eq-ok (visit sdk injector v)
            (λ w. visit_all sdk injector es >>= λ rest. ok (element key w rest)) e in
        let (rest, others, same) =
          >>=-eq-ok (visit_all sdk injector es) (λ rest. ok (element key w rest)) more in
        ap skeleton_of (sym (ok-injective same))
        ∙ ap₂ (λ x y. element key x y) (visit-skeleton v w visited)
            (visit_all-skeleton es rest others)

  -- The texts of a map or a slice after traverseObject, or its error, are those of filling the texts
  -- one after the other.
  pub traverse_object-leaves :
      (es : Elements)
      → ((traverse_object sdk injector (map_of es) >>= λ w. ok (leaves w))
          ≡ fill_each (leaves (map_of es)))
        × ((traverse_object sdk injector (slice_of es) >>= λ w. ok (leaves w))
            ≡ fill_each (leaves (slice_of es)))
  unfolding traverse_object
  traverse_object-leaves es = (visit-leaves (map_of es), visit-leaves (slice_of es))

  -- Apart from its texts, traverseObject leaves an object as it is: every key, every element and
  -- every other value.
  pub traverse_object-skeleton :
      (v w : Json) → traverse_object sdk injector v ≡ ok w → skeleton w ≡ skeleton v
  unfolding traverse_object
  traverse_object-skeleton (text s) w e = ap skeleton (sym (ok-injective e))
  traverse_object-skeleton (map_of es) w e = visit-skeleton (map_of es) w e
  traverse_object-skeleton (slice_of es) w e = visit-skeleton (slice_of es) w e
  traverse_object-skeleton (other_value s) w e = ap skeleton (sym (ok-injective e))

  -- No text refers to Vault.
  abbrev pub IsPlain : List String → Type 0
  IsPlain = All (λ s. (has_vault_prefix s || sdk.has_inline s) ≡ false)

  fill-plain :
      (s : String) → (has_vault_prefix s || sdk.has_inline s) ≡ false → fill sdk injector s ≡ ok s
  unfolding fill
  fill-plain s plain = ground arith

  mutual
    unfolding leaves visit

    visit-plain : (v : Json) → IsPlain (leaves v) → visit sdk injector v ≡ ok v
    visit-plain (text s) (plain, _) = rw (fill-plain s plain)
    visit-plain (map_of es) plain = rw (visit_all-plain es plain)
    visit-plain (slice_of es) plain = rw (visit_all-plain es plain)
    visit-plain (other_value s) plain = refl

    visit_all-plain : (es : Elements) → IsPlain (leaves_of es) → visit_all sdk injector es ≡ ok es
    visit_all-plain end plain = refl
    visit_all-plain (element key v es) plain =
        let (here, there) = All-split _ (leaves v) (leaves_of es) plain in
        rw (visit-plain v here, visit_all-plain es there)

  -- An object in which no text refers to Vault comes back as it is, whatever Vault holds.
  traverse_object-plain : (v : Json) → IsPlain (leaves v) → traverse_object sdk injector v ≡ ok v
  unfolding traverse_object
  traverse_object-plain (text s) plain = refl
  traverse_object-plain (map_of es) plain = visit-plain (map_of es) plain
  traverse_object-plain (slice_of es) plain = visit-plain (slice_of es) plain
  traverse_object-plain (other_value s) plain = refl

-- ===== src/Mesh/Specdoc/References.antt =====
-- Resolving the references of a schema: it ends, and leaves none.
use benzene_python.Prelude.{
  ℕ, zero, suc, ◌≤◌, String, ◌≡◌, refl, ap, fun_ext, inl, inr, Bool, false, ◌||◌, some, List, [],
  ◌∷◌, ◌++◌, arith, is_some, contains, length, ◌==◌, text_key, Bool-cases, Option-cases,
}
use benzene_python.Dict.{Dict, get}
use benzene_python.Dict.Unique.{Has-get}
use benzene_python.Dict.Unseen.{unseen, unseen-fewer, unseen-le-length}
use benzene_python.Json.{
  Json, null, boolean, integer, negative, real, text, array, object, Items, nil, cons, Members, end,
  member,
}
use benzene_python.Mesh.Specdoc.{
  reference_of, name_in, resolve_value, resolve_items, resolve_members, object_of, follow,
  resolve_within, resolve_schema,
}

module _ (schemas : Dict String Json) where
  follow_same :
      (f g : List String → Json → Members) (seen : List String)
      → ((name : String) (schema : Json)
          → contains name seen ≡ false
          → get name schemas ≡ some schema
          → f (seen ++ name ∷ []) schema ≡ g (seen ++ name ∷ []) schema)
      → (name : String) → follow f schemas seen name ≡ follow g schemas seen name
  follow_same f g seen h name = elim (Bool-cases (contains name seen)) [
    | inl old ↦ rw old refl
    | inr new ↦ elim (Option-cases (get name schemas)) [
      | inl absent ↦ rw (new, absent) refl
      | inr (schema, found) ↦ rw (new, found) (h name schema new found)
    ]
  ]

  resolve_within-more :
      (left big : ℕ) (seen : List String) (schema : Json)
      → unseen seen schemas ≤ left
      → left ≤ big
      → resolve_within left schemas seen schema ≡ resolve_within big schemas seen schema
  unfolding resolve_within
  resolve_within-more zero zero seen schema enough le = refl
  resolve_within-more zero (suc big) seen schema enough le =
      ap (λ (r : String → Members). object_of (resolve_value r schema))
        (fun_ext (
          follow_same (λ next s. end) (resolve_within big schemas) seen
            (λ name s new found. absurd (
              omega (
                arith,
                enough,
                unseen-fewer seen name s schemas (Has-get name s schemas found) new,
              )))))
  resolve_within-more (suc left) zero seen schema enough le = absurd (omega (arith, le))
  resolve_within-more (suc left) (suc big) seen schema enough le =
      ap (λ (r : String → Members). object_of (resolve_value r schema))
        (fun_ext (
          follow_same (resolve_within left schemas) (resolve_within big schemas) seen
            (λ name s new found.
              resolve_within-more left big (seen ++ name ∷ []) s
                (omega (
                  arith,
                  enough,
                  unseen-fewer seen name s schemas (Has-get name s schemas found) new,
                ))
                (omega (arith, le)))))

  -- Following as many references on a path as the catalogue has schemas is enough: a larger
  -- allowance gives the same schema, since every path of references ends or is cut at a name it has
  -- met.
  pub resolve_schema_ends :
      (big : ℕ) (schema : Json)
      → length schemas ≤ big
      → resolve_schema schema schemas ≡ resolve_within big schemas [] schema
  unfolding resolve_schema
  resolve_schema_ends big schema le =
      resolve_within-more (length schemas) big [] schema (unseen-le-length [] schemas) le

-- Some object inside the value refers into the catalogue.
mutual
  pub refers : Json → Bool
  refers (object ms) = is_some (reference_of ms) || refers_in ms
  refers (array vs) = refers_among vs
  refers v = false

  refers_among : Items → Bool
  refers_among nil = false
  refers_among (cons v vs) = refers v || refers_among vs

  refers_in : Members → Bool
  refers_in end = false
  refers_in (member k v ms) = refers v || refers_in ms

module _ (r : String → Members) where
  name_in-resolve_value : (v : Json) → name_in (some (resolve_value r v)) ≡ name_in (some v)
  unfolding resolve_value
  name_in-resolve_value null = refl
  name_in-resolve_value (boolean b) = refl
  name_in-resolve_value (integer n) = refl
  name_in-resolve_value (negative n) = refl
  name_in-resolve_value (real z t) = refl
  name_in-resolve_value (text t) = refl
  name_in-resolve_value (array vs) = refl
  name_in-resolve_value (object ms) = refl

  reference_of-resolve_members :
      (ms : Members) → reference_of (resolve_members r ms) ≡ reference_of ms
  unfolding resolve_value get
  reference_of-resolve_members end = refl
  reference_of-resolve_members (member k v ms) = elim (Bool-cases (k == "$ref")) [
    | inl same ↦ rw same (name_in-resolve_value v)
    | inr other ↦ rw other (reference_of-resolve_members ms)
  ]

  module _ (closed : (name : String) → refers (object (r name)) ≡ false) where
    mutual
      unfolding refers resolve_value

      resolve_value-closed : (v : Json) → refers (resolve_value r v) ≡ false
      resolve_value-closed (object ms) = elim (Option-cases (reference_of ms)) [
        | inl none' ↦ rw (none', reference_of-resolve_members ms, none') (resolve_members-closed ms)
        | inr (name, named) ↦ rw named (closed name)
      ]
      resolve_value-closed (array vs) = resolve_items-closed vs
      resolve_value-closed v = refl

      resolve_items-closed : (vs : Items) → refers_among (resolve_items r vs) ≡ false
      resolve_items-closed nil = refl
      resolve_items-closed (cons v vs) = rw (resolve_value-closed v) (resolve_items-closed vs)

      resolve_members-closed : (ms : Members) → refers_in (resolve_members r ms) ≡ false
      resolve_members-closed end = refl
      resolve_members-closed (member k v ms) =
          rw (resolve_value-closed v) (resolve_members-closed ms)

refers_in-object :
    (schema : Json) → refers schema ≡ false → refers (object (object_of schema)) ≡ false
unfolding refers get
refers_in-object (object ms) h = h
refers_in-object v h = refl

follow-closed :
    (f : List String → Json → Members) (schemas : Dict String Json) (seen : List String)
    → ((more : List String) (schema : Json) → refers (object (f more schema)) ≡ false)
    → (name : String) → refers (object (follow f schemas seen name)) ≡ false
unfolding refers get
follow-closed f schemas seen h name = elim (Bool-cases (contains name seen)) [
  | inl old ↦ rw old refl
  | inr new ↦ elim (Option-cases (get name schemas)) [
    | inl absent ↦ rw (new, absent) refl
    | inr (schema, found) ↦ rw (new, found) (h (seen ++ name ∷ []) schema)
  ]
]

end_closed : refers (object end) ≡ false
unfolding refers get
end_closed = refl

resolve_within-closed :
    (left : ℕ) (schemas : Dict String Json) (seen : List String) (schema : Json)
    → refers (object (resolve_within left schemas seen schema)) ≡ false
unfolding resolve_within
resolve_within-closed zero schemas seen schema = refers_in-object _ (
    resolve_value-closed (follow (λ next s. end) schemas seen)
      (follow-closed _ schemas seen (λ more s. end_closed)) schema)
resolve_within-closed (suc left) schemas seen schema = refers_in-object _ (
    resolve_value-closed (follow (resolve_within left schemas) schemas seen)
      (follow-closed _ schemas seen (resolve_within-closed left schemas)) schema)

-- A resolved schema has no reference into the catalogue left, at any depth.
pub resolve_schema_closed :
    (schema : Json) (schemas : Dict String Json)
    → refers (object (resolve_schema schema schemas)) ≡ false
unfolding resolve_schema
resolve_schema_closed schema schemas = resolve_within-closed (length schemas) schemas [] schema

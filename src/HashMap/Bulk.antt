-- ===== src/HashMap/Bulk.antt =====
-- The operations of the map that go over all the entries of one.
use jml.Base.{
  ℕ, ◌≡◌, refl, sym, ◌∙◌, ap, List, [], ◌∷◌, some, none, set, ◌==◌, ==_iff, arith, inl, inr,
  Bool-cases, Option-cases,
}
use jml.HashMap.Table.{Strings, Entry, HashMap, add}
use jml.HashMap.Lookup.{lookup, lookup-eq-none}
use jml.HashMap.Laws.{IsValid}
use jml.HashMap.Grow.{or_else, Distinct, Distinct-of_unique}
use jml.HashMap.Methods.{set_key-Does}

module _ (strings : Strings) where
  -- What `jml_hashmap_add` makes of the destination: the source's value where it has one.
  pub record Adds (es : List Entry) (dest r : HashMap) : Type 0 where
    pub valid : IsValid strings r
    pub reads : (q : ℕ) → lookup r.entries q ≡ or_else (lookup es q) (lookup dest.entries q)

  add-Adds :
      (es : List Entry) {dest : HashMap}
      → Distinct es
      → IsValid strings dest
      → (r : HashMap) × (add strings es dest ≡ some r) × Adds es dest r
  unfolding add lookup
  add-Adds [] d valid = (_, refl, record { valid = valid; reads = λ q. refl })
  add-Adds (e ∷ es) d valid = elim (Option-cases e.key) [
    | inl nk ↦
        let (r, run, a) = add-Adds es d.1 valid in
        (r, rw nk run, record { valid = a.valid; reads = λ q. ground (arith, a.reads q) })
    | inr (k, ek) ↦
        let (s, set, does) = set_key-Does strings valid k e.value in
        let (r, run, a) = add-Adds es d.1 does.valid in
        let later : lookup es k ≡ none = lookup-eq-none es k (d.0 k (ground arith)) in
        (
          r,
          rw ek (rw set run),
          record {
            valid = a.valid;
            reads = λ q. elim (Bool-cases (k == q)) [
              | inl same ↦
                  let e' : lookup es q ≡ none =
                    ap (lookup es) (sym ((==_iff k q).0 same)) ∙ later in
                  ground (arith, a.reads q, does.updates q)
              | inr other ↦ ground (arith, a.reads q, does.updates q)
            ];
          },
        )
  ]

  -- On maps in order `jml_hashmap_add` ends, and the destination then has the source's value under every
  -- key of the source and its own under every other key.
  pub add_maps :
      {source dest : HashMap}
      → IsValid strings source
      → IsValid strings dest
      → (r : HashMap) × (add strings source.entries dest ≡ some r) × Adds source.entries dest r
  add_maps {source} v valid =
      let t = v.table.placed in
      add-Adds source.entries
        (Distinct-of_unique source.entries (λ i j k li lj hi hj.
          t.unique i j k (omega (arith, t.width)) (omega (arith, t.width)) hi hj))
        valid

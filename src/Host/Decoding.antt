-- ===== src/Host/Decoding.antt =====
-- Which maps and sequences are read as a tensor by crates/knok/src/tensor.rs, and that a tensor that is
-- written is read back.
use knok.Base.{
  ℕ, ◌≡◌, ◌↔◌, inl, inr, refl, sym, ap, ◌∙◌, Bool, ==_iff, ==_refl, rejected, reverse, map, List,
  length, Option, some, none, String, Result, ok, Error, ok_injective, ok_or, map_err-eq-ok,
  >>=-eq-ok, >>-eq-ok, reject_if-eq-ok,
}
use knok.Base.Usize.{product_from}
use knok.Ast.Types.{shape_eq_sound, shape_eq_refl}
use knok.Host.Data
use knok.Host.Data.{TensorData}
use knok.Host.Tensors
use knok.Host.Tensors.{Tensor}
use knok.Host.Entries.{TwoFields, entries_read, entries_reads}
use knok.Host.Serde.{tensor_from_serde_parts, serialize, visit_entries, visit_map, visit_seq}

ok_or-eq-ok : {A : Type 0} (e : Error) (o : Option A) {a : A} → ok_or e o ≡ ok a → o ≡ some a
ok_or-eq-ok e none h = cc
ok_or-eq-ok e (some b) h = ap some (ok_injective h)

module _ {T : Type 0} (checks : Bool) (shape : List ℕ) (count : ℕ)
    (counted : product_from checks 1 shape ≡ ok count) where
  -- What from_vec makes of a vector with the right number of elements.
  from_vec-reads :
      (elems : List T)
      → length elems ≡ count
      → Tensors.from_vec checks shape elems ≡ ok (record { storage = record { elems = elems } })
  unfolding Tensors.from_vec Data.from_vec
  from_vec-reads elems l = rw (counted, l, ==_refl count) refl

  from_vec-eq :
      (elems : List T) (t : Tensor T shape)
      → Tensors.from_vec checks shape elems ≡ ok t
      → (length elems ≡ count) × (elems ≡ t.storage.elems)
  unfolding Tensors.from_vec Data.from_vec
  from_vec-eq elems t h =
      let (storage, a, b) = >>=-eq-ok (Data.from_vec checks elems shape) _ h in
      let (n, c, d) = >>=-eq-ok (product_from checks 1 shape) _ a in
      let (e, f) = >>-eq-ok _ _ d in
      (
        (==_iff _ _).0 (rejected _ (reject_if-eq-ok _ _ e)) ∙ ok_injective (sym c ∙ counted),
        ap (λ (x : TensorData T). x.elems) (ok_injective f)
            ∙ ap (λ (x : Tensor T shape). x.storage.elems) (ok_injective b),
      )

  parts_read :
      (found : List ℕ) (elems : List T) (t : Tensor T shape)
      → tensor_from_serde_parts checks shape found elems ≡ ok t
      → (found ≡ shape) × (length elems ≡ count) × (elems ≡ t.storage.elems)
  unfolding tensor_from_serde_parts
  parts_read found elems t h =
      let (a, b) = >>-eq-ok _ _ h in
      let (l, e) = from_vec-eq elems t (map_err-eq-ok _ _ b) in
      (shape_eq_sound found shape (rejected _ (reject_if-eq-ok _ _ a)), l, e)

  parts_reads :
      (elems : List T)
      → length elems ≡ count
      → tensor_from_serde_parts checks shape shape elems
        ≡ ok (record { storage = record { elems = elems } })
  unfolding tensor_from_serde_parts
  parts_reads elems l = rw (shape_eq_refl shape, from_vec-reads elems l) refl

  module _ {V : Type 0} (as_shape : V → Result (List ℕ)) (as_elems : V → Result (List T)) where
    -- If the shape's element count is computed, then a map is read as a tensor exactly if it has two
    -- entries, in either order, one that reads as the tensor's shape and one that reads as the elements
    -- of the tensor, and these are as many as the shape says.
    pub visit_map_iff :
        (entries : List (String × V)) (t : Tensor T shape)
        → (visit_map as_shape as_elems checks shape entries ≡ ok t) ↔ (
            TwoFields as_shape as_elems entries shape t.storage.elems
            × (length t.storage.elems ≡ count))
    unfolding visit_map
    visit_map_iff entries t = (reads, read)
      where
        reads :
            visit_map as_shape as_elems checks shape entries ≡ ok t
            → TwoFields as_shape as_elems entries shape t.storage.elems
              × (length t.storage.elems ≡ count)
        reads h =
            let (fields, a, h1) =
              >>=-eq-ok (visit_entries as_shape as_elems none none entries) _ h in
            let (found, b, h2) = >>=-eq-ok (ok_or _ fields.0) _ h1 in
            let (elems, d, h3) = >>=-eq-ok (ok_or _ fields.1) _ h2 in
            let (e, l, f) = parts_read found elems t h3 in
            let both : ◌≡◌ {A = Option (List ℕ) × Option (List T)} fields
                (some shape, some t.storage.elems) =
              λ i. (
                (ok_or-eq-ok _ fields.0 b ∙ ap some e) i,
                (ok_or-eq-ok _ fields.1 d ∙ ap some f) i,
              ) in
            (
              entries_read as_shape as_elems shape t.storage.elems entries (a ∙ ap ok both),
              sym (ap length f) ∙ l,
            )

        read :
            TwoFields as_shape as_elems entries shape t.storage.elems
              × (length t.storage.elems ≡ count)
            → visit_map as_shape as_elems checks shape entries ≡ ok t
        read (f, l) =
            rw (entries_reads as_shape as_elems shape t.storage.elems entries f)
              (parts_reads t.storage.elems l)

    -- If the format reads back the values that it makes of a shape and of elements, and the shape's
    -- element count is computed, then a tensor with as many elements is read back as it was written:
    -- from the map in either order, and from the sequence of the two values.
    pub visit-serialize :
        (of_shape : List ℕ → V) (of_elems : List T → V)
        → ((s : List ℕ) → as_shape (of_shape s) ≡ ok s)
        → ((d : List T) → as_elems (of_elems d) ≡ ok d)
        → (t : Tensor T shape) → length t.storage.elems ≡ count
        → (visit_map as_shape as_elems checks shape (serialize of_shape of_elems shape t) ≡ ok t)
          × (visit_map as_shape as_elems checks shape
                (reverse (serialize of_shape of_elems shape t))
              ≡ ok t)
          × (visit_seq as_shape as_elems checks shape
                (map (λ (p : String × V). p.1) (serialize of_shape of_elems shape t))
              ≡ ok t)
    unfolding serialize visit_seq
    visit-serialize of_shape of_elems shape_back elems_back t l =
        let d = t.storage.elems in
        (
          (visit_map_iff _ t).1
              ((of_shape shape, of_elems d, shape_back shape, elems_back d, inl refl), l),
          (visit_map_iff _ t).1
              ((of_shape shape, of_elems d, shape_back shape, elems_back d, inr refl), l),
          rw (shape_back shape, elems_back d) (parts_reads d l),
        )

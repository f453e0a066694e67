-- ===== src/Heap/Laws.antt =====
-- Reading after a write and after an allocation.
use mcp_adapter_engram.Base.{
  ℕ, ◌≡◌, ◌≢◌, refl, sym, ap, Option, none, some, List, ◌++◌, set, get_elem?, get_elem?-set_ne,
  get_elem?-set_self, get_elem?-append_left, Map,
}
use mcp_adapter_engram.Heap.{
  Value, nil, list, obj, Object, elems, entries, Heap, as_map, as_list, entries_of, elems_of,
}

-- The address of a map or slice; none for the other values.
abbrev pub address : Value → Option ℕ
address (list a) = some a
address (obj a) = some a
address _ = none

module _ (h : Heap) (a : ℕ) (o : Object) where
  pub as_map-set_ne : (v : Value) → address v ≢ some a → as_map (set h a o) v ≡ as_map h v
  unfolding as_map
  as_map-set_ne (obj b) ne = rw (get_elem?-set_ne h a b o (λ e. ne (ap some (sym e))))
  as_map-set_ne _ ne = refl

  pub as_list-set_ne : (v : Value) → address v ≢ some a → as_list (set h a o) v ≡ as_list h v
  unfolding as_list
  as_list-set_ne (list b) ne = rw (get_elem?-set_ne h a b o (λ e. ne (ap some (sym e))))
  as_list-set_ne _ ne = refl

entries_of-eq-some :
    (o : Option Object) {m : Map Value} → entries_of o ≡ some m → o ≡ some (entries m)
entries_of-eq-some (some (entries m)) e = cc
entries_of-eq-some _ e = cc

elems_of-eq-some :
    (o : Option Object) {xs : List Value} → elems_of o ≡ some xs → o ≡ some (elems xs)
elems_of-eq-some (some (elems xs)) e = cc
elems_of-eq-some _ e = cc

module _ (h : Heap) (a : ℕ) where
  pub object_of_as_map :
      {m : Map Value} → as_map h (obj a) ≡ some m → get_elem? h a ≡ some (entries m)
  unfolding as_map
  object_of_as_map e = entries_of-eq-some _ e

  pub object_of_as_list :
      {xs : List Value} → as_list h (list a) ≡ some xs → get_elem? h a ≡ some (elems xs)
  unfolding as_list
  object_of_as_list e = elems_of-eq-some _ e

  pub as_map-set_self :
      {m : Map Value} (m' : Map Value)
      → as_map h (obj a) ≡ some m
      → as_map (set h a (entries m')) (obj a) ≡ some m'
  as_map-set_self m' e =
      let e' = get_elem?-set_self h a (entries m') (object_of_as_map e) in unfold as_map in rw e'

  pub as_list-set_self :
      {xs : List Value} (ys : List Value)
      → as_list h (list a) ≡ some xs
      → as_list (set h a (elems ys)) (list a) ≡ some ys
  as_list-set_self ys e =
      let e' = get_elem?-set_self h a (elems ys) (object_of_as_list e) in unfold as_list in rw e'

module _ (h fresh : Heap) where
  pub as_map-append :
      (v : Value) {m : Map Value} → as_map h v ≡ some m → as_map (h ++ fresh) v ≡ some m
  as_map-append (obj b) e =
      let e' = get_elem?-append_left h fresh b (object_of_as_map h b e) in unfold as_map in rw e'
  as_map-append nil e = unfold as_map in cc
  as_map-append _ e = unfold as_map in cc

  pub as_list-append :
      (v : Value) {xs : List Value} → as_list h v ≡ some xs → as_list (h ++ fresh) v ≡ some xs
  as_list-append (list b) e =
      let e' = get_elem?-append_left h fresh b (object_of_as_list h b e) in unfold as_list in rw e'
  as_list-append nil e = unfold as_list in cc
  as_list-append _ e = unfold as_list in cc

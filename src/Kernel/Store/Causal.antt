-- ===== src/Kernel/Store/Causal.antt =====
-- crates/rg-kernel/src/lib.rs: the causal links of the store, indexed by cause and by effect.
use mathlib.Core.List.{Memᴰ}
use hotgraph.Prelude.{
  ◌≡◌, ◌≢◌, refl, sym, ◌∙◌, subst, ap, ◌↔◌, ◌⊎◌, inl, inr, String, List, [], ◌∷◌, ◌++◌, Option,
  none, some, Ordering, cmp, ◌==◌, eq_iff, eq_self, if◌then◌else◌, Bool, true, false, not,
  string_ord, arith, Result, ok, err, ensure, ◌>>◌, Bool-cases, Result-cases,
}
use hotgraph.Prelude.Lists.{is_empty, sort_by}
use hotgraph.Prelude.Map.{BTreeMap, get, get_or, insert, get-insert}
use hotgraph.Prelude.Members.{Memᴰ-left, Memᴰ-right, Memᴰ-append_cases, Memᴰ-sort_by}
use hotgraph.Core.Types.{EventId}
use hotgraph.Kernel.Atom.{KernelError, self_causation, missing_causal_evidence}
use hotgraph.Kernel.Store.{CausalAtom, RealityKernel}

-- `CausalAtom::validate`
unfoldable pub validate_causal : CausalAtom → Result (Unit {0}) KernelError
validate_causal x = do
  ensure (not (x.cause == x.effect)) self_causation
  ensure (not (is_empty x.evidence)) missing_causal_evidence

-- the order of an `Option<String>`
abbrev pub compare_mechanisms : Option String → Option String → Ordering
compare_mechanisms none none = Ordering.eq
compare_mechanisms none (some b) = Ordering.lt
compare_mechanisms (some a) none = Ordering.gt
compare_mechanisms (some a) (some b) = cmp a b

abbrev pub then_with : Ordering → Ordering → Ordering
then_with Ordering.eq next = next
then_with first next = first

abbrev pub compare_causal : CausalAtom → CausalAtom → Ordering
compare_causal a b =
    then_with (cmp a.cause b.cause)
      (then_with (cmp a.effect b.effect) (compare_mechanisms a.mechanism b.mechanism))

abbrev pub CausalIndex : Type 0
CausalIndex = BTreeMap EventId (List CausalAtom)

-- the links of an event
abbrev pub at_event : CausalIndex → EventId → List CausalAtom
at_event m e = get_or (get m e) []

-- `sort_causal_atoms` on each of the values
unfoldable pub sort_causal_atoms : CausalIndex → CausalIndex
sort_causal_atoms [] = []
sort_causal_atoms ((e, xs) ∷ m) = (e, sort_by compare_causal xs) ∷ sort_causal_atoms m

-- `entry(e).or_default().push(x)`, and then the sort of the values
abbrev pub filed : CausalIndex → EventId → CausalAtom → CausalIndex
filed m e x = sort_causal_atoms (insert m e (at_event m e ++ x ∷ []))

unfoldable pub insert_causal_atom : RealityKernel → CausalAtom → Result RealityKernel KernelError
insert_causal_atom k x = do
  validate_causal x
  ok (record k {
    causal_outgoing = filed k.causal_outgoing x.cause x;
    causal_incoming = filed k.causal_incoming x.effect x;
  })

unfoldable pub causal_atoms_from : RealityKernel → EventId → List CausalAtom
causal_atoms_from k e = at_event k.causal_outgoing e

at-sort_causal_atoms :
    (m : CausalIndex) (e : EventId)
    → at_event (sort_causal_atoms m) e ≡ sort_by compare_causal (at_event m e)
unfolding sort_causal_atoms get sort_by
at-sort_causal_atoms [] e = refl
at-sort_causal_atoms ((k, xs) ∷ m) e = ground (arith, at-sort_causal_atoms m e)

abbrev added : CausalIndex → EventId → CausalAtom → EventId → Bool → List CausalAtom
added m k x e same = if same then at_event m k ++ x ∷ [] else at_event m e

at-filed :
    (m : CausalIndex) (k e : EventId) (x : CausalAtom)
    → at_event (filed m k x) e ≡ sort_by compare_causal (added m k x e (k == e))
at-filed m k e x =
    at-sort_causal_atoms (insert m k (at_event m k ++ x ∷ [])) e
    ∙ ap (sort_by compare_causal) (ground (arith, get-insert m k (at_event m k ++ x ∷ []) e))

filed_iff :
    (m : CausalIndex) (k e : EventId) (x y : CausalAtom) (b : Bool)
    → k == e ≡ b
    → Memᴰ y (at_event (filed m k x) e) ↔ Memᴰ y (added m k x e b)
filed_iff m k e x y b h =
    subst (λ xs. Memᴰ y xs ↔ Memᴰ y (added m k x e b)) (sym (at-filed m k e x))
      (subst (λ c. Memᴰ y (sort_by compare_causal (added m k x e c)) ↔ Memᴰ y (added m k x e b))
        (sym h) (Memᴰ-sort_by compare_causal (added m k x e b) y))

only_item : (x y : CausalAtom) → Memᴰ y (x ∷ []) → y ≡ x
only_item x y (Memᴰ.head e) = e
only_item x y (Memᴰ.tail m) = elim m [ ]

filed_cases :
    (m : CausalIndex) (k e : EventId) (x y : CausalAtom)
    → Memᴰ y (at_event (filed m k x) e)
    → Memᴰ y (at_event m e) ⊎ ((y ≡ x) × (k ≡ e))
filed_cases m k e x y h = elim (Bool-cases (k == e)) [
  | inl same ↦
      let p : k ≡ e = (eq_iff k e).0 same in
      elim (Memᴰ-append_cases (at_event m k) (x ∷ []) ((filed_iff m k e x y true same).0 h)) [
        | inl old ↦ inl (subst (λ i. Memᴰ y (at_event m i)) p old)
        | inr new ↦ inr (only_item x y new, p)
      ]
  | inr other ↦ inl ((filed_iff m k e x y false other).0 h)
]

filed_keeps :
    (m : CausalIndex) (k e : EventId) (x y : CausalAtom)
    → Memᴰ y (at_event m e)
    → Memᴰ y (at_event (filed m k x) e)
filed_keeps m k e x y h = elim (Bool-cases (k == e)) [
  | inl same ↦ (filed_iff m k e x y true same).1 (
      Memᴰ-left (at_event m k) (x ∷ [])
        (subst (λ i. Memᴰ y (at_event m i)) (sym ((eq_iff k e).0 same)) h))
  | inr other ↦ (filed_iff m k e x y false other).1 h
]

filed_new : (m : CausalIndex) (k : EventId) (x : CausalAtom) → Memᴰ x (at_event (filed m k x) k)
filed_new m k x =
    (filed_iff m k k x x true (eq_self k)).1 (Memᴰ-right (at_event m k) (x ∷ []) (Memᴰ.head refl))

-- A link goes from one event to another, on evidence.
abbrev pub IsCausal : CausalAtom → Type 0
IsCausal x = (x.cause ≢ x.effect) × (x.evidence ≢ [])

-- Each index holds links that are causal, under the event that they belong to, and the other index
-- holds them as well.
pub record IsCausalIndex (k : RealityKernel) : Type 0 where
  pub from_cause :
      (e : EventId) (y : CausalAtom)
      → Memᴰ y (at_event k.causal_outgoing e)
      → (y.cause ≡ e) × IsCausal y × Memᴰ y (at_event k.causal_incoming y.effect)
  pub from_effect :
      (e : EventId) (y : CausalAtom)
      → Memᴰ y (at_event k.causal_incoming e)
      → (y.effect ≡ e) × IsCausal y × Memᴰ y (at_event k.causal_outgoing y.cause)

validate_causal-IsCausal : (x : CausalAtom) → validate_causal x ≡ ok tt → IsCausal x
unfolding validate_causal
validate_causal-IsCausal x h = (λ e. ground (arith, eq_iff x.cause x.effect), λ e. ground arith)

IsCausal-validate_causal : (x : CausalAtom) → IsCausal x → validate_causal x ≡ ok tt
unfolding validate_causal
IsCausal-validate_causal x h = ground (arith, eq_iff x.cause x.effect, h.0, h.1)

abbrev pub with_causal : RealityKernel → CausalAtom → RealityKernel
with_causal k x = record k {
  causal_outgoing = filed k.causal_outgoing x.cause x;
  causal_incoming = filed k.causal_incoming x.effect x;
}

with_causal-IsCausalIndex :
    (k : RealityKernel) (x : CausalAtom)
    → IsCausal x
    → IsCausalIndex k
    → IsCausalIndex (with_causal k x)
with_causal-IsCausalIndex k x v h = record {
  from_cause = λ e y m. elim (filed_cases k.causal_outgoing x.cause e x y m) [
    | inl old ↦
        let (p, c, i) = h.from_cause e y old in
        (p, c, filed_keeps k.causal_incoming x.effect y.effect x y i)
    | inr (q, p) ↦
        subst
          (λ (z : CausalAtom).
            (z.cause ≡ e)
            × IsCausal z
            × Memᴰ z (at_event (filed k.causal_incoming x.effect x) z.effect))
          (sym q) (p, v, filed_new k.causal_incoming x.effect x)
  ];
  from_effect = λ e y m. elim (filed_cases k.causal_incoming x.effect e x y m) [
    | inl old ↦
        let (p, c, i) = h.from_effect e y old in
        (p, c, filed_keeps k.causal_outgoing x.cause y.cause x y i)
    | inr (q, p) ↦
        subst
          (λ (z : CausalAtom).
            (z.effect ≡ e)
            × IsCausal z
            × Memᴰ z (at_event (filed k.causal_outgoing x.cause x) z.cause))
          (sym q) (p, v, filed_new k.causal_outgoing x.cause x)
  ];
}

-- Links inserted one after the other, those that are refused left out.
unfoldable pub insert_causal_atoms : RealityKernel → List CausalAtom → RealityKernel
insert_causal_atoms k [] = k
insert_causal_atoms k (x ∷ xs) = elim (insert_causal_atom k x) [
  | ok after ↦ insert_causal_atoms after xs
  | err _ ↦ insert_causal_atoms k xs
]

insert_causal_atom_cases :
    (k : RealityKernel) (x : CausalAtom)
    → (IsCausal x × (insert_causal_atom k x ≡ ok (with_causal k x)))
      ⊎ ((e : KernelError) × (insert_causal_atom k x ≡ err e) × (validate_causal x ≡ err e))
unfolding insert_causal_atom
insert_causal_atom_cases k x = elim (Result-cases (validate_causal x)) [
  | inl (_, h) ↦ inl (validate_causal-IsCausal x h, ground arith)
  | inr (e, h) ↦ inr (e, ground arith, h)
]

-- Whatever links are inserted, the two indexes agree: each holds the links under the event that they
-- belong to, every link goes from one event to another on evidence, and it is in the other index too.
pub insert_causal_atoms-IsCausalIndex :
    (k : RealityKernel) (xs : List CausalAtom)
    → IsCausalIndex k
    → IsCausalIndex (insert_causal_atoms k xs)
unfolding insert_causal_atoms
insert_causal_atoms-IsCausalIndex k [] h = h
insert_causal_atoms-IsCausalIndex k (x ∷ xs) h = elim (insert_causal_atom_cases k x) [
  | inl (v, e) ↦
      rw (e, insert_causal_atoms)
        (insert_causal_atoms-IsCausalIndex (with_causal k x) xs (with_causal-IsCausalIndex k x v h))
  | inr (_, e, _) ↦ rw (e, insert_causal_atoms) (insert_causal_atoms-IsCausalIndex k xs h)
]

insert_causal_atoms_keep :
    (k : RealityKernel) (xs : List CausalAtom) (e : EventId) (y : CausalAtom)
    → Memᴰ y (at_event k.causal_outgoing e)
    → Memᴰ y (at_event (insert_causal_atoms k xs).causal_outgoing e)
unfolding insert_causal_atoms
insert_causal_atoms_keep k [] e y h = h
insert_causal_atoms_keep k (x ∷ xs) e y h = elim (insert_causal_atom_cases k x) [
  | inl (v, p) ↦
      rw (p, insert_causal_atoms)
        (insert_causal_atoms_keep (with_causal k x) xs e y
          (filed_keeps k.causal_outgoing x.cause e x y h))
  | inr (_, p, _) ↦ rw (p, insert_causal_atoms) (insert_causal_atoms_keep k xs e y h)
]

-- A link between two events on evidence that is among the inserted ones is found under its cause.
pub causal_atoms_from_complete :
    (k : RealityKernel) (xs : List CausalAtom) (y : CausalAtom)
    → IsCausal y
    → Memᴰ y xs
    → Memᴰ y (causal_atoms_from (insert_causal_atoms k xs) y.cause)
unfolding insert_causal_atoms causal_atoms_from
causal_atoms_from_complete k [] y c m = elim m [ ]
causal_atoms_from_complete k (x ∷ xs) y c (Memᴰ.tail m) = elim (insert_causal_atom_cases k x) [
  | inl (v, p) ↦ rw (p, insert_causal_atoms) (causal_atoms_from_complete (with_causal k x) xs y c m)
  | inr (_, p, _) ↦ rw (p, insert_causal_atoms) (causal_atoms_from_complete k xs y c m)
]
causal_atoms_from_complete k (x ∷ xs) y c (Memᴰ.head q) = elim (insert_causal_atom_cases k x) [
  | inl (v, p) ↦
      rw (p, insert_causal_atoms)
        (insert_causal_atoms_keep (with_causal k x) xs y.cause y (
          subst (λ (z : CausalAtom). Memᴰ z (at_event (filed k.causal_outgoing x.cause x) z.cause))
            (sym q) (filed_new k.causal_outgoing x.cause x)))
  | inr (_, p, r) ↦ absurd (ground (arith, IsCausal-validate_causal x (subst IsCausal q c)))
]

-- ===== src/Kernel/Physical/Trie.antt =====
-- crates/rg-kernel/src/lib.rs: the trie of subject, predicate and object, over `push_atom`.
use hotgraph.Prelude.{
  ◌≤◌, ◌≡◌, ◌≢◌, refl, sym, ◌∙◌, ap, String, Option, none, some, Ord, ◌==◌, eq_iff, eq_self,
  nat_ord, string_ord, Bool, true, false, ◌&&◌, ◌||◌, ◌⊎◌, inl, inr, arith, Bool-cases,
}
use hotgraph.Prelude.Lists.{length, contains}
use hotgraph.Prelude.Map.{BTreeMap, get, get_or}
use hotgraph.Core.Types.{PredicateId}
use hotgraph.Kernel.Atom.{EntityRef}
use hotgraph.Kernel.Bitmap.{AtomOrdinal, CandidateBitmap, empty}
use hotgraph.Kernel.Physical.{Symbol, TrieKey, key_ord}
use hotgraph.Kernel.Physical.Push.{push_candidate_index}
use hotgraph.Kernel.Physical.Lookup.{trie_at}
use hotgraph.Kernel.Physical.Candidates.{contains-push_self, get-push_other}
use hotgraph.Kernel.Physical.Posting.{IsInterned}

module _ {ℓ} {K : Type ℓ} ⦃o : Ord K⦄ where
  -- A key has the symbol that it had, or has a new one.
  interned_cases :
      (before after : BTreeMap K Symbol) (k : K) (s : Symbol)
      → IsInterned before k after s
      → (j : K)
      → (get after j ≡ get before j)
        ⊎ ((get before j ≡ none) × (get after j ≡ some s) × (s ≡ length before))
  interned_cases before after k s i j = elim (Bool-cases (k == j)) [
    | inr other ↦ inl (i.looked_up j ∙ ground arith)
    | inl same ↦
        let e : k ≡ j = (eq_iff k j).0 same in
        elim i.origin [
          | inl known ↦ inl (ground (arith, i.looked_up j, ap (get before) e))
          | inr (unknown, p) ↦
              inr (ground (arith, ap (get before) e), ground (arith, i.looked_up j), p)
        ]
  ]

  -- Only the interned key has its symbol.
  interned_own :
      (before after : BTreeMap K Symbol) (k : K) (s : Symbol)
      → IsInterned before k after s
      → (j : K) → get after j ≡ some s
      → k == j ≡ true
  interned_own before after k s i j h =
      (eq_iff k j).1 (i.kept.apart k j s (i.looked_up k ∙ ground (arith, eq_self k)) h)

abbrev pub key_of : Symbol → Symbol → Symbol → TrieKey
key_of s p o = record { subject = s; predicate = p; object = o }

abbrev pub Trie : Type 0
Trie = BTreeMap TrieKey CandidateBitmap

-- Above the symbols of its parts the trie is empty; below, it holds what `has` says.
pub record IsTrie (trie : Trie) (entities : BTreeMap EntityRef Symbol)
    (predicates : BTreeMap PredicateId Symbol) (objects : BTreeMap String Symbol)
    (has : EntityRef → PredicateId → String → AtomOrdinal → Bool) : Type 0 where
  pub no_subject : (k : TrieKey) → length entities ≤ k.subject → get trie k ≡ none
  pub no_predicate : (k : TrieKey) → length predicates ≤ k.predicate → get trie k ≡ none
  pub no_object : (k : TrieKey) → length objects ≤ k.object → get trie k ≡ none
  pub exact :
      (e : EntityRef) (p : PredicateId) (t : String) (n : AtomOrdinal)
      → contains (trie_at trie (get entities e) (get predicates p) (get objects t)).ordinals n
        ≡ has e p t n

empty_at : (trie : Trie) (k : TrieKey) → get trie k ≡ none → get_or (get trie k) empty ≡ empty
empty_at trie k h = rw h

trie_at-no_predicate : (trie : Trie) (s o : Option Symbol) → trie_at trie s none o ≡ empty
trie_at-no_predicate trie none o = refl
trie_at-no_predicate trie (some s) o = refl

trie_at-no_object : (trie : Trie) (s p : Option Symbol) → trie_at trie s p none ≡ empty
trie_at-no_object trie none p = refl
trie_at-no_object trie (some s) none = refl
trie_at-no_object trie (some s) (some p) = refl

module _ (trie : Trie) (es es' : BTreeMap EntityRef Symbol) (ps ps' : BTreeMap PredicateId Symbol)
    (os os' : BTreeMap String Symbol) (e : EntityRef) (p : PredicateId) (t : String)
    (se sp so : Symbol) (n : AtomOrdinal)
    (has : EntityRef → PredicateId → String → AtomOrdinal → Bool) (h : IsTrie trie es ps os has)
    (ie : IsInterned es e es' se) (ip : IsInterned ps p ps' sp) (io : IsInterned os t os' so) where
  subject_step :
      (f : EntityRef) (q r : Option Symbol)
      → trie_at trie (get es' f) q r ≡ trie_at trie (get es f) q r
  subject_step f q r = elim (interned_cases es es' e se ie f) [
    | inl same ↦ ap (λ x. trie_at trie x q r) same
    | inr (was, is, fresh) ↦ rw (is, was) (at_new q r fresh)
  ]
    where
      at_new : (q r : Option Symbol) → se ≡ length es → trie_at trie (some se) q r ≡ empty
      at_new none r fresh = refl
      at_new (some q) none fresh = refl
      at_new (some q) (some r) fresh =
          empty_at trie (key_of se q r) (h.no_subject (key_of se q r) (omega arith))

  predicate_step :
      (q : Option Symbol) (g : PredicateId) (r : Option Symbol)
      → trie_at trie q (get ps' g) r ≡ trie_at trie q (get ps g) r
  predicate_step q g r = elim (interned_cases ps ps' p sp ip g) [
    | inl same ↦ ap (λ x. trie_at trie q x r) same
    | inr (was, is, fresh) ↦ rw (is, was) (at_new q r fresh ∙ sym (trie_at-no_predicate trie q r))
  ]
    where
      at_new : (q r : Option Symbol) → sp ≡ length ps → trie_at trie q (some sp) r ≡ empty
      at_new none r fresh = refl
      at_new (some q) none fresh = refl
      at_new (some q) (some r) fresh =
          empty_at trie (key_of q sp r) (h.no_predicate (key_of q sp r) (omega arith))

  object_step :
      (q r : Option Symbol) (u : String)
      → trie_at trie q r (get os' u) ≡ trie_at trie q r (get os u)
  object_step q r u = elim (interned_cases os os' t so io u) [
    | inl same ↦ ap (λ x. trie_at trie q r x) same
    | inr (was, is, fresh) ↦ rw (is, was) (at_new q r fresh ∙ sym (trie_at-no_object trie q r))
  ]
    where
      at_new : (q r : Option Symbol) → so ≡ length os → trie_at trie q r (some so) ≡ empty
      at_new none r fresh = refl
      at_new (some q) none fresh = refl
      at_new (some q) (some r) fresh =
          empty_at trie (key_of q r so) (h.no_object (key_of q r so) (omega arith))

  -- New symbols alone change no look-up.
  symbols_step :
      (f : EntityRef) (g : PredicateId) (u : String)
      → trie_at trie (get es' f) (get ps' g) (get os' u)
        ≡ trie_at trie (get es f) (get ps g) (get os u)
  symbols_step f g u =
      subject_step f (get ps' g) (get os' u)
      ∙ predicate_step (get es f) g (get os' u)
      ∙ object_step (get es f) (get ps g) u

  is_key : EntityRef → PredicateId → String → Bool
  is_key f g u = e == f && (p == g && t == u)

  pushed_elsewhere :
      (f : EntityRef) (g : PredicateId) (u : String) (a b c : Option Symbol)
      → get es' f ≡ a
      → get ps' g ≡ b
      → get os' u ≡ c
      → is_key f g u ≡ false
      → trie_at (push_candidate_index trie (key_of se sp so) n) a b c ≡ trie_at trie a b c
  unfolding is_key
  pushed_elsewhere f g u none b c x y z other = refl
  pushed_elsewhere f g u (some a) none c x y z other = refl
  pushed_elsewhere f g u (some a) (some b) none x y z other = refl
  pushed_elsewhere f g u (some a) (some b) (some c) x y z other =
      let apart : key_of a b c ≢ key_of se sp so = λ q. ground (
        arith,
        interned_own es es' e se ie f,
        interned_own ps ps' p sp ip g,
        interned_own os os' t so io u,
        ap (λ (k : TrieKey). k.subject) q,
        ap (λ (k : TrieKey). k.predicate) q,
        ap (λ (k : TrieKey). k.object) q,
      ) in
      ap (λ m. get_or m empty) (get-push_other trie (key_of se sp so) (key_of a b c) n apart)

  pushed_here :
      (f : EntityRef) (g : PredicateId) (u : String)
      → is_key f g u ≡ true
      → (get es' f ≡ some se) × (get ps' g ≡ some sp) × (get os' u ≡ some so)
  unfolding is_key
  pushed_here f g u same = (
    ground (arith, ie.looked_up f),
    ground (arith, ip.looked_up g),
    ground (arith, io.looked_up u),
  )

  trie_push_exact :
      (f : EntityRef) (g : PredicateId) (u : String) (m : AtomOrdinal)
      → contains
          (trie_at
            (push_candidate_index trie (key_of se sp so) n)
            (get es' f)
            (get ps' g)
            (get os' u)).ordinals
          m
        ≡ (has f g u m || (is_key f g u && n == m))
  trie_push_exact f g u m =
      let old =
        ap (λ (c : CandidateBitmap). contains c.ordinals m) (symbols_step f g u)
        ∙ h.exact f g u m in
      elim (Bool-cases (is_key f g u)) [
        | inl same ↦
            let (x, y, z) = pushed_here f g u same in
            rw (x, y, z, same)
              (contains-push_self trie (key_of se sp so) n m ∙ ground (arith, old, x, y, z))
        | inr other ↦ rw other (
            ap (λ (c : CandidateBitmap). contains c.ordinals m)
              (pushed_elsewhere f g u (get es' f) (get ps' g) (get os' u) refl refl refl other)
            ∙ old
            ∙ ground arith)
      ]

  above_key :
      (k : TrieKey)
      → k ≢ key_of se sp so
      → get trie k ≡ none
      → get (push_candidate_index trie (key_of se sp so) n) k ≡ none
  above_key k apart fresh = get-push_other trie (key_of se sp so) k n apart ∙ fresh

  pub IsTrie-push :
      IsTrie
        (push_candidate_index trie (key_of se sp so) n)
        es'
        ps'
        os'
        (λ f g u m. has f g u m || (e == f && (p == g && t == u) && n == m))
  unfolding is_key
  IsTrie-push = record {
    no_subject = λ k a.
        above_key k (λ q. omega (arith, ie.inside, ap (λ (k : TrieKey). k.subject) q))
          (h.no_subject k (omega (arith, ie.longer)));
    no_predicate = λ k a.
        above_key k (λ q. omega (arith, ip.inside, ap (λ (k : TrieKey). k.predicate) q))
          (h.no_predicate k (omega (arith, ip.longer)));
    no_object = λ k a.
        above_key k (λ q. omega (arith, io.inside, ap (λ (k : TrieKey). k.object) q))
          (h.no_object k (omega (arith, io.longer)));
    exact = trie_push_exact;
  }

pub IsTrie-same :
    (trie : Trie) (es : BTreeMap EntityRef Symbol) (ps : BTreeMap PredicateId Symbol)
    (os : BTreeMap String Symbol)
    (has other : EntityRef → PredicateId → String → AtomOrdinal → Bool)
    → ((e : EntityRef) (p : PredicateId) (t : String) (n : AtomOrdinal)
        → has e p t n ≡ other e p t n)
    → IsTrie trie es ps os has
    → IsTrie trie es ps os other
IsTrie-same trie es ps os has other same h = record {
  no_subject = h.no_subject;
  no_predicate = h.no_predicate;
  no_object = h.no_object;
  exact = λ e p t n. h.exact e p t n ∙ same e p t n;
}

-- ===== src/Kernel/Store/History.antt =====
-- crates/rg-kernel/src/lib.rs: `revise_belief` and the belief history of the store.
use hotgraph.Prelude.{
  subst, ◌≡◌, refl, sym, ◌∙◌, ap, String, List, [], ◌∷◌, ◌++◌, some, lt, le, ◌==◌, eq_iff, eq_self,
  if◌then◌else◌, true, false, string_ord, ok, arith,
}
use hotgraph.Prelude.Int.{ℤ_ord}
use hotgraph.Prelude.Lists.{All, insert_by, sort_by}
use hotgraph.Prelude.Map.{get, get_or, insert, get-insert}
use hotgraph.Core.Types.{TxTime}
use hotgraph.Kernel.Atom.{AtomId, BeliefState, RealityAtom}
use hotgraph.Kernel.Belief.{BeliefRevision}
use hotgraph.Kernel.Store.{
  RealityKernel, compare_revisions, revise_belief, belief_revisions, roll_back, belief_at,
  with_belief,
}

-- The revision is known at the time or before.
abbrev pub IsBefore : TxTime → BeliefRevision → Type 0
IsBefore t r = le r.known_at t ≡ true

-- The revisions stand in the order of their times.
abbrev pub IsChronological : List BeliefRevision → Type 0
IsChronological [] = Unit
IsChronological (r ∷ rs) = All (λ s. IsBefore s.known_at r) rs × IsChronological rs

insert_by-first :
    (r : BeliefRevision) (rs : List BeliefRevision)
    → All (λ s. IsBefore s.known_at r) rs
    → insert_by compare_revisions r rs ≡ r ∷ rs
unfolding insert_by
insert_by-first r [] h = refl
insert_by-first r (s ∷ rs) h = ground (arith, h.0)

sort_by-chronological :
    (rs : List BeliefRevision) → IsChronological rs → sort_by compare_revisions rs ≡ rs
unfolding sort_by
sort_by-chronological [] h = refl
sort_by-chronological (r ∷ rs) h =
    ap (insert_by compare_revisions r) (sort_by-chronological rs h.1) ∙ insert_by-first r rs h.0

All-snoc :
    (r n : BeliefRevision) (rs : List BeliefRevision)
    → All (λ s. IsBefore s.known_at r) rs
    → IsBefore n.known_at r
    → All (λ s. IsBefore s.known_at r) (rs ++ n ∷ [])
All-snoc r n [] h p = (p, tt)
All-snoc r n (s ∷ rs) h p = (h.0, All-snoc r n rs h.1 p)

IsChronological-snoc :
    (rs : List BeliefRevision) (n : BeliefRevision)
    → IsChronological rs
    → All (IsBefore n.known_at) rs
    → IsChronological (rs ++ n ∷ [])
IsChronological-snoc [] n h p = (tt, tt)
IsChronological-snoc (r ∷ rs) n h p = (All-snoc r n rs h.0 p.0, IsChronological-snoc rs n h.1 p.1)

pub roll_back-append :
    (t : TxTime) (rs ss : List BeliefRevision) (state : BeliefState)
    → roll_back t (rs ++ ss) state ≡ roll_back t rs (roll_back t ss state)
unfolding roll_back
roll_back-append t [] ss state = refl
roll_back-append t (r ∷ rs) ss state =
    ap (λ later. if lt t r.known_at then r.previous else later) (roll_back-append t rs ss state)

not_lt : (t now s : TxTime) → lt t now ≡ false → le s now ≡ true → lt t s ≡ false
not_lt t now s p q = ground (
  arith,
  ℤ_ord.eq_of_compare s now,
  ℤ_ord.compare_flip s now,
  ℤ_ord.compare_flip t now,
  ℤ_ord.compare_trans t s now,
)

-- At a time from which no revision is later, nothing is undone.
roll_back_now :
    (t now : TxTime) (rs : List BeliefRevision) (state : BeliefState)
    → lt t now ≡ false
    → All (IsBefore now) rs
    → roll_back t rs state ≡ state
unfolding roll_back
roll_back_now t now [] state p h = refl
roll_back_now t now (r ∷ rs) state p h =
    ground (arith, not_lt t now r.known_at p h.0, roll_back_now t now rs state p h.1)

roll_back_pushed :
    (t : TxTime) (rs : List BeliefRevision) (n : BeliefRevision)
    → All (IsBefore n.known_at) rs
    → roll_back t (rs ++ n ∷ []) n.next
      ≡ (if lt t n.known_at then roll_back t rs n.previous else n.next)
unfolding roll_back
roll_back_pushed t rs n h =
    ground (arith, roll_back-append t rs (n ∷ []) n.next, roll_back_now t n.known_at rs n.next)

-- A revision of a known atom at a time that no revision of the atom exceeds succeeds. Before that
-- time the belief in the atom stays as it was, from it on it is the new one; the belief in every
-- other atom stays at all times, and the revisions of the atom remain in order of time.
pub revise_belief_lem :
    (k : RealityKernel) (id : AtomId) (a : RealityAtom) (next : BeliefState) (now : TxTime)
    (reason : String)
    → get k.atoms id ≡ some a
    → IsChronological (belief_revisions k id)
    → All (IsBefore now) (belief_revisions k id)
    → (after : RealityKernel) × (revise_belief k id next now reason ≡ ok after)
      × IsChronological (belief_revisions after id)
      × ((t : TxTime) → belief_at after id t ≡ (if lt t now then belief_at k id t else some next))
      × ((j : AtomId) (t : TxTime)
          → belief_at after j t ≡ (if id == j then belief_at after id t else belief_at k j t))
unfolding revise_belief belief_revisions belief_at
revise_belief_lem k id a next now reason known order before =
    let rs = get_or (get k.revisions id) [] in
    let n : BeliefRevision = record {
      atom_id = id;
      known_at = now;
      previous = a.belief_state;
      next = next;
      reason = reason;
    } in
    let ordered = IsChronological-snoc rs n order before in
    let kept = sort_by-chronological (rs ++ n ∷ []) ordered in
    let sorted = sort_by compare_revisions (rs ++ n ∷ []) in
    let chronological = subst IsChronological (sym kept) ordered in
    (
      record k {
        atoms = insert k.atoms id (with_belief a next);
        revisions = insert k.revisions id sorted;
      },
      ground arith,
      ground (arith, chronological, get-insert k.revisions id sorted id, eq_self id),
      λ t. ground (
        arith,
        get-insert k.atoms id (with_belief a next) id,
        get-insert k.revisions id sorted id,
        eq_self id,
        kept,
        roll_back_pushed t rs n before,
      ),
      λ j t. ground (
        arith,
        get-insert k.atoms id (with_belief a next) j,
        get-insert k.revisions id sorted j,
        eq_iff id j,
      ),
    )

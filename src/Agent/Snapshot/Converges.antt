-- ===== src/Agent/Snapshot/Converges.antt =====
-- `Diff`: performing the operations brings the observed peers to the desired ones.
use personal_vpn.Prelude.{
  subst, ◌≡◌, refl, sym, ◌∙◌, List, [], ◌∷◌, ◌++◌, Option, none, some, arith, ◌↔◌, Str,
  Str-discrete, Map, IsMap, get,
}
use personal_vpn.Agent.Snapshot.{
  Peer, Snapshot, Operation, by_key, additions, removals, sort_operations, diff, ok, ParsePrefix,
}
use personal_vpn.Agent.Snapshot.Operations.{
  key_of, op_at, IsDistinct, or_else, op_at-append, append-IsDistinct, op_at-sort_operations,
  perform_all, outcome, get-perform_all,
}
use personal_vpn.Agent.Snapshot.Changes.{
  additions-op_at, removals-op_at, additions-IsDistinct, removals-IsDistinct, IsSelfKeyed,
  by_key-IsMap, by_key-IsSelfKeyed, change, gone, get-IsSelfKeyed,
}

-- Whatever stands under a key, its operation leaves what is wanted.
settles :
    (d o : Option Peer)
    → ((p q : Peer) → d ≡ some p → o ≡ some q → p.public_key ≡ q.public_key)
    → outcome (or_else (change d o) (gone o d)) o ≡ d
settles none none same = refl
settles none (some q) same = refl
settles (some p) none same = refl
settles (some p) (some q) same = let e = same p q refl refl in ground arith

module _ (desired observed : Map Str Peer) (hd : IsMap Str-discrete desired)
    (sd : IsSelfKeyed desired) (ho : IsMap Str-discrete observed) (so : IsSelfKeyed observed) where
  pub all_operations : List Operation
  all_operations = additions desired observed ++ removals observed desired

  all_operations-IsDistinct : IsDistinct all_operations
  unfolding all_operations
  all_operations-IsDistinct =
      append-IsDistinct (additions desired observed) (removals observed desired)
        (λ k o at. ground (
          arith,
          additions-op_at k desired observed hd sd,
          removals-op_at k observed desired ho so,
        ))
        (additions-IsDistinct desired observed hd sd) (removals-IsDistinct observed desired ho so)

  -- The operation under a key, from what is wanted and what is observed there.
  pub operation_for :
      (k : Str)
      → op_at k (sort_operations all_operations)
        ≡ or_else
            (change (get Str-discrete k desired) (get Str-discrete k observed))
            (gone (get Str-discrete k observed) (get Str-discrete k desired))
  unfolding all_operations
  operation_for k =
      let (distinct, same) = op_at-sort_operations all_operations all_operations-IsDistinct in
      rw
        (
          same k,
          op_at-append k (additions desired observed) (removals observed desired),
          additions-op_at k desired observed hd sd,
          removals-op_at k observed desired ho so,
        )
        refl

  pub operations_converge :
      (k : Str)
      → get Str-discrete k (perform_all (sort_operations all_operations) observed)
        ≡ get Str-discrete k desired
  operations_converge k =
      let (distinct, same) = op_at-sort_operations all_operations all_operations-IsDistinct in
      rw (get-perform_all k (sort_operations all_operations) observed distinct, operation_for k)
        (settles (get Str-discrete k desired) (get Str-discrete k observed)
          λ p q d o. get-IsSelfKeyed k desired p sd d ∙ sym (get-IsSelfKeyed k observed q so o))

diff_ok :
    (parse_prefix : ParsePrefix) (desired : Snapshot) (observed : Map Str Peer)
    (ops : List Operation)
    → diff parse_prefix desired observed ≡ ok ops
    → sort_operations (
        additions (by_key [] desired.peers) observed ++ removals observed (by_key [] desired.peers))
      ≡ ops
unfolding diff
diff_ok parse_prefix desired observed ops e = ground arith

steady : (d : Option Peer) → or_else (change d d) (gone d d) ≡ none
steady none = refl
steady (some p) = ground arith

nil_of_op_at : (ops : List Operation) → ((k : Str) → op_at k ops ≡ none) → ops ≡ []
unfolding get
nil_of_op_at [] h = refl
nil_of_op_at (o ∷ l) h = let here = h (key_of o) in absurd (ground arith)

pub diff-IsDistinct :
    (parse_prefix : ParsePrefix) (desired : Snapshot) (observed : Map Str Peer)
    (ops : List Operation)
    → IsMap Str-discrete observed
    → IsSelfKeyed observed
    → diff parse_prefix desired observed ≡ ok ops
    → IsDistinct ops
unfolding all_operations
diff-IsDistinct parse_prefix desired observed ops ho so e =
    let wanted = by_key [] desired.peers in
    rw (← diff_ok parse_prefix desired observed ops e)
      (op_at-sort_operations
        (all_operations wanted observed (by_key-IsMap [] desired.peers tt)
          (by_key-IsSelfKeyed [] desired.peers tt) ho so)
        (all_operations-IsDistinct wanted observed (by_key-IsMap [] desired.peers tt)
          (by_key-IsSelfKeyed [] desired.peers tt) ho so)).0

-- The operation of the difference under a key.
pub diff-op_at :
    (parse_prefix : ParsePrefix) (desired : Snapshot) (observed : Map Str Peer)
    (ops : List Operation) (k : Str)
    → IsMap Str-discrete observed
    → IsSelfKeyed observed
    → diff parse_prefix desired observed ≡ ok ops
    → op_at k ops
      ≡ or_else
          (change (get Str-discrete k (by_key [] desired.peers)) (get Str-discrete k observed))
          (gone (get Str-discrete k observed) (get Str-discrete k (by_key [] desired.peers)))
unfolding all_operations
diff-op_at parse_prefix desired observed ops k ho so e =
    rw (← diff_ok parse_prefix desired observed ops e) (
      operation_for (by_key [] desired.peers) observed (by_key-IsMap [] desired.peers tt)
        (by_key-IsSelfKeyed [] desired.peers tt) ho so k)

-- Performing the operations of a difference on the observed peers, each under its own key, gives
-- under every key exactly the peer of the desired snapshot, or none.
pub diff-perform_all :
    (parse_prefix : ParsePrefix) (desired : Snapshot) (observed : Map Str Peer)
    (ops : List Operation) (k : Str)
    → IsMap Str-discrete observed
    → IsSelfKeyed observed
    → diff parse_prefix desired observed ≡ ok ops
    → get Str-discrete k (perform_all ops observed) ≡ get Str-discrete k (by_key [] desired.peers)
unfolding all_operations
diff-perform_all parse_prefix desired observed ops k ho so e =
    rw (← diff_ok parse_prefix desired observed ops e) (
      operations_converge (by_key [] desired.peers) observed (by_key-IsMap [] desired.peers tt)
        (by_key-IsSelfKeyed [] desired.peers tt) ho so k)

-- The difference of a valid snapshot to the observed peers, each under its own key, is empty
-- exactly when both have the same peer under every key.
pub diff-eq-nil_iff :
    (parse_prefix : ParsePrefix) (desired : Snapshot) (observed : Map Str Peer)
    (ops : List Operation)
    → IsMap Str-discrete observed
    → IsSelfKeyed observed
    → diff parse_prefix desired observed ≡ ok ops
    → (ops ≡ [])
      ↔ ((k : Str) → get Str-discrete k observed ≡ get Str-discrete k (by_key [] desired.peers))
unfolding all_operations
diff-eq-nil_iff parse_prefix desired observed ops ho so e = (
  (λ p k.
      unfold perform_all in
      subst (λ l. get Str-discrete k (perform_all l observed) ≡ get Str-discrete k wanted) p
        (diff-perform_all parse_prefix desired observed ops k ho so e)),
  λ same. nil_of_op_at ops λ k.
      subst (λ l. op_at k l ≡ none) (diff_ok parse_prefix desired observed ops e)
        (operation_for wanted observed (by_key-IsMap [] desired.peers tt)
            (by_key-IsSelfKeyed [] desired.peers tt) ho so k
          ∙ rw (same k) (steady (get Str-discrete k wanted))),
)
  where
    wanted : Map Str Peer
    wanted = by_key [] desired.peers

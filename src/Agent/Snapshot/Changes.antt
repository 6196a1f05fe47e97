-- ===== src/Agent/Snapshot/Changes.antt =====
-- The operations of `Diff` under each key.
use personal_vpn.Prelude.{
  ◌≡◌, refl, List, [], ◌∷◌, Option, none, some, arith, All, if◌then◌else◌, holds, not, ◌||◌, Str,
  Str-discrete, Map, IsMap, put-IsMap, get, put, delete,
}
use personal_vpn.Agent.Snapshot.{
  Peer, Operation, add, update, remove, by_key, changes, additions, removal, removals,
}
use personal_vpn.Agent.Snapshot.Operations.{op_at, IsDistinct, op_at-append, append-IsDistinct}

-- Each peer stands under its own key.
abbrev pub IsSelfKeyed : Map Str Peer → Type 0
IsSelfKeyed = All (λ e. e.1.public_key ≡ e.0)

pub delete-IsSelfKeyed :
    (k : Str) (m : Map Str Peer) → IsSelfKeyed m → IsSelfKeyed (delete Str-discrete k m)
unfolding delete
delete-IsSelfKeyed k [] h = tt
delete-IsSelfKeyed k ((j, p) ∷ m) (e, h) = ground (arith, delete-IsSelfKeyed k m h)

pub by_key-IsMap :
    (m : Map Str Peer) (peers : List Peer)
    → IsMap Str-discrete m
    → IsMap Str-discrete (by_key m peers)
unfolding by_key
by_key-IsMap m [] h = h
by_key-IsMap m (p ∷ ps) h =
    by_key-IsMap (put Str-discrete p.public_key p m) ps (put-IsMap Str-discrete p.public_key p m h)

pub by_key-IsSelfKeyed :
    (m : Map Str Peer) (peers : List Peer) → IsSelfKeyed m → IsSelfKeyed (by_key m peers)
unfolding by_key
by_key-IsSelfKeyed m [] h = h
by_key-IsSelfKeyed m (p ∷ ps) h =
    by_key-IsSelfKeyed (put Str-discrete p.public_key p m) ps
      (unfold put in (refl, delete-IsSelfKeyed p.public_key m h))

-- The operation for a key, from what is wanted and what is observed.
abbrev pub change : Option Peer → Option Peer → Option Operation
change none observed = none
change (some peer) none = some (record { kind = add; peer = peer })
change (some peer) (some current) =
    if not (holds (Str-discrete current.ipv4 peer.ipv4))
      || not (holds (Str-discrete current.ipv6 peer.ipv6))
    then some (record { kind = update; peer = peer })
    else none

abbrev pub gone : Option Peer → Option Peer → Option Operation
gone none wanted = none
gone (some peer) none =
    some (record {
      kind = remove;
      peer = record { public_key = peer.public_key; ipv4 = []; ipv6 = [] };
    })
gone (some peer) (some wanted) = none

pub changes-op_at :
    (k : Str) (p : Peer) (o : Option Peer)
    → op_at k (changes p o)
      ≡ (if holds (Str-discrete k p.public_key) then change (some p) o else none)
unfolding get
changes-op_at k p none = ground arith
changes-op_at k p (some c) = ground arith

pub removal-op_at :
    (k : Str) (p : Peer) (o : Option Peer)
    → op_at k (removal p o)
      ≡ (if holds (Str-discrete k p.public_key) then gone (some p) o else none)
unfolding get
removal-op_at k p none = ground arith
removal-op_at k p (some c) = ground arith

pub additions-op_at :
    (k : Str) (desired observed : Map Str Peer)
    → IsMap Str-discrete desired
    → IsSelfKeyed desired
    → op_at k (additions desired observed)
      ≡ change (get Str-discrete k desired) (get Str-discrete k observed)
unfolding get additions
additions-op_at k [] observed h s = refl
additions-op_at k ((j, p) ∷ m) observed (fresh, h) (e, s) = ground (
  arith,
  op_at-append k (changes p (get Str-discrete j observed)) (additions m observed),
  changes-op_at k p (get Str-discrete j observed),
  additions-op_at k m observed h s,
)

pub removals-op_at :
    (k : Str) (observed desired : Map Str Peer)
    → IsMap Str-discrete observed
    → IsSelfKeyed observed
    → op_at k (removals observed desired)
      ≡ gone (get Str-discrete k observed) (get Str-discrete k desired)
unfolding get removals
removals-op_at k [] desired h s = refl
removals-op_at k ((j, p) ∷ m) desired (fresh, h) (e, s) = ground (
  arith,
  op_at-append k (removal p (get Str-discrete j desired)) (removals m desired),
  removal-op_at k p (get Str-discrete j desired),
  removals-op_at k m desired h s,
)

pub changes-IsDistinct : (p : Peer) (o : Option Peer) → IsDistinct (changes p o)
unfolding get
changes-IsDistinct p none = (refl, tt)
changes-IsDistinct p (some c) = ground arith

pub removal-IsDistinct : (p : Peer) (o : Option Peer) → IsDistinct (removal p o)
unfolding get
removal-IsDistinct p none = (refl, tt)
removal-IsDistinct p (some c) = tt

pub additions-IsDistinct :
    (desired observed : Map Str Peer)
    → IsMap Str-discrete desired
    → IsSelfKeyed desired
    → IsDistinct (additions desired observed)
unfolding additions
additions-IsDistinct [] observed h s = tt
additions-IsDistinct ((j, p) ∷ m) observed (fresh, h) (e, s) =
    append-IsDistinct (changes p (get Str-discrete j observed)) (additions m observed)
      (λ k o at.
        ground (
          arith,
          changes-op_at k p (get Str-discrete j observed),
          additions-op_at k m observed h s,
        ))
      (changes-IsDistinct p (get Str-discrete j observed)) (additions-IsDistinct m observed h s)

pub removals-IsDistinct :
    (observed desired : Map Str Peer)
    → IsMap Str-discrete observed
    → IsSelfKeyed observed
    → IsDistinct (removals observed desired)
unfolding removals
removals-IsDistinct [] desired h s = tt
removals-IsDistinct ((j, p) ∷ m) desired (fresh, h) (e, s) =
    append-IsDistinct (removal p (get Str-discrete j desired)) (removals m desired)
      (λ k o at.
        ground
          (arith, removal-op_at k p (get Str-discrete j desired), removals-op_at k m desired h s))
      (removal-IsDistinct p (get Str-discrete j desired)) (removals-IsDistinct m desired h s)

pub get-IsSelfKeyed :
    (k : Str) (m : Map Str Peer) (p : Peer)
    → IsSelfKeyed m
    → get Str-discrete k m ≡ some p
    → p.public_key ≡ k
unfolding get
get-IsSelfKeyed k [] p s e = cc
get-IsSelfKeyed k ((j, q) ∷ m) p (f, s) e = ground (arith, get-IsSelfKeyed k m p s)

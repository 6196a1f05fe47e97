-- ===== src/Agent/Snapshot/Operations.antt =====
-- Lists of operations as maps from the key to the operation, and the sort by key.
use personal_vpn.Prelude.{
  ◌≡◌, refl, ◌∙◌, List, [], ◌∷◌, ◌++◌, Option, none, some, arith, ite, Str, Str-discrete, Map,
  IsMap, get, put, delete, get-put, get-delete,
}
use personal_vpn.Agent.Snapshot.{
  Peer, Operation, add, update, remove, insert_operation, sort_operations,
}

abbrev pub key_of : Operation → Str
key_of o = o.peer.public_key

abbrev pub keyed : List Operation → Map Str Operation
keyed [] = []
keyed (o ∷ l) = (key_of o, o) ∷ keyed l

abbrev pub op_at : Str → List Operation → Option Operation
op_at k l = get Str-discrete k (keyed l)

-- The keys of the operations are distinct.
abbrev pub IsDistinct : List Operation → Type 0
IsDistinct l = IsMap Str-discrete (keyed l)

abbrev pub or_else : Option Operation → Option Operation → Option Operation
or_else none b = b
or_else (some a) b = some a

pub op_at-append :
    (k : Str) (xs ys : List Operation) → op_at k (xs ++ ys) ≡ or_else (op_at k xs) (op_at k ys)
unfolding get
op_at-append k [] ys = refl
op_at-append k (x ∷ xs) ys = ground (arith, op_at-append k xs ys)

pub append-IsDistinct :
    (xs ys : List Operation)
    → ((k : Str) (o : Operation) → op_at k xs ≡ some o → op_at k ys ≡ none)
    → IsDistinct xs
    → IsDistinct ys
    → IsDistinct (xs ++ ys)
unfolding get
append-IsDistinct [] ys apart h k = k
append-IsDistinct (x ∷ xs) ys apart (fresh, h) k = (
  (let here = apart (key_of x) x (ground arith) in ground (arith, op_at-append (key_of x) xs ys)),
  append-IsDistinct xs ys (λ j o e. apart j o (ground arith)) h k,
)

op_at-insert_operation :
    (k : Str) (a : Operation) (l : List Operation)
    → op_at (key_of a) l ≡ none
    → op_at k (insert_operation a l) ≡ ite (Str-discrete k (key_of a)) (some a) (op_at k l)
unfolding get insert_operation
op_at-insert_operation k a [] fresh = refl
op_at-insert_operation k a (b ∷ l) fresh = ground (arith, op_at-insert_operation k a l)

insert_operation-IsDistinct :
    (a : Operation) (l : List Operation)
    → op_at (key_of a) l ≡ none
    → IsDistinct l
    → IsDistinct (insert_operation a l)
unfolding get insert_operation
insert_operation-IsDistinct a [] fresh h = (refl, tt)
insert_operation-IsDistinct a (b ∷ l) fresh (fb, h) =
    ground (arith, insert_operation-IsDistinct a l, op_at-insert_operation (key_of b) a l)

pub op_at-sort_operations :
    (l : List Operation)
    → IsDistinct l
    → IsDistinct (sort_operations l) × ((k : Str) → op_at k (sort_operations l) ≡ op_at k l)
unfolding sort_operations get
op_at-sort_operations [] h = (tt, λ k. refl)
op_at-sort_operations (a ∷ l) (fresh, h) =
    let (distinct, same) = op_at-sort_operations l h in
    let absent = same (key_of a) ∙ fresh in
    (
      insert_operation-IsDistinct a (sort_operations l) absent distinct,
      λ k. let e = same k in ground (arith, op_at-insert_operation k a (sort_operations l) absent),
    )

-- What an operation does to the peers of an interface, by key.
abbrev pub perform : Operation → Map Str Peer → Map Str Peer
perform o m = elim o.kind [
  | add ↦ put Str-discrete o.peer.public_key o.peer m
  | update ↦ put Str-discrete o.peer.public_key o.peer m
  | remove ↦ delete Str-discrete o.peer.public_key m
]

unfoldable pub perform_all : List Operation → Map Str Peer → Map Str Peer
perform_all [] m = m
perform_all (o ∷ l) m = perform_all l (perform o m)

-- The peer that an operation leaves under its key.
abbrev pub left_by : Operation → Option Peer
left_by o = elim o.kind [ add ↦ some o.peer | update ↦ some o.peer | remove ↦ none ]

get-perform :
    (k : Str) (o : Operation) (m : Map Str Peer)
    → get Str-discrete k (perform o m)
      ≡ ite (Str-discrete (key_of o) k) (left_by o) (get Str-discrete k m)
get-perform k o m =
    ground
      (arith, get-put Str-discrete (key_of o) k o.peer m, get-delete Str-discrete (key_of o) k m)

abbrev pub outcome : Option Operation → Option Peer → Option Peer
outcome none before = before
outcome (some o) before = left_by o

-- With distinct keys the order of the operations does not matter.
pub get-perform_all :
    (k : Str) (l : List Operation) (m : Map Str Peer)
    → IsDistinct l
    → get Str-discrete k (perform_all l m) ≡ outcome (op_at k l) (get Str-discrete k m)
unfolding perform_all get
get-perform_all k [] m h = refl
get-perform_all k (o ∷ l) m (fresh, h) =
    ground (arith, get-perform_all k l (perform o m) h, get-perform k o m)

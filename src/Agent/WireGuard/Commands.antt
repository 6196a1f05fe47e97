-- ===== src/Agent/WireGuard/Commands.antt =====
-- The commands that are run: their shape, and that they stop at the first failure.
use personal_vpn.Prelude.{
  ℕ, suc, ◌≡◌, ◌≢◌, ◌≤◌, ◌⊎◌, ◌↔◌, refl, sym, ap, ◌∙◌, true, false, ◌||◌, ltb, List, [], ◌∷◌, ◌++◌,
  Option, none, arith, All, text, length, Str, Str-discrete, Bool-cases, Option-cases, inl, inr,
  holds, holds_yes, holds_no,
}
use personal_vpn.Keys.{valid_public_key}
use personal_vpn.Agent.Snapshot.{
  Peer, Operation, OperationKind, add, update, remove, Error, ok, ParsePrefix, valid_host_prefix,
  Result-cases, max_peers_per_snapshot,
}
use personal_vpn.Agent.WireGuard.{
  is_safe, all_safe, sanitize_interface_name, operation_arguments, apply_from, apply,
  WireGuardBackend,
}

-- A letter or a digit of ASCII, an underscore or a dash.
abbrev pub IsSafe : ℕ → Type 0
IsSafe c =
    ((b'a' ≤ c) × (c ≤ b'z'))
    ⊎ ((b'A' ≤ c) × (c ≤ b'Z'))
    ⊎ ((b'0' ≤ c) × (c ≤ b'9'))
    ⊎ (c ≡ b'_')
    ⊎ (c ≡ b'-')

is_safe-IsSafe : (c : ℕ) → (is_safe c ≡ true) ↔ IsSafe c
is_safe-IsSafe c = ((λ e. ground arith), (λ h. ground arith))

all_safe-IsSafe : (name : Str) → (all_safe name ≡ true) ↔ All IsSafe name
unfolding all_safe
all_safe-IsSafe [] = ((λ e. tt), (λ h. refl))
all_safe-IsSafe (c ∷ name) =
    let (out, back) = all_safe-IsSafe name in
    let (safe, unsafe) = is_safe-IsSafe c in
    (
      (λ e. (safe (ground arith), out (ground arith))),
      (λ (here, rest). let first = unsafe here in let later = back rest in ground arith),
    )

module _ (parse_prefix : ParsePrefix) where
  -- A removal names the key alone; the others carry two host prefixes.
  abbrev pub IsShaped : OperationKind → Peer → Type 0
  IsShaped remove p = (p.ipv4 ≡ []) × (p.ipv6 ≡ [])
  IsShaped add p =
      (valid_host_prefix parse_prefix p.ipv4 4 ≡ true)
      × (valid_host_prefix parse_prefix p.ipv6 6 ≡ true)
  IsShaped update p =
      (valid_host_prefix parse_prefix p.ipv4 4 ≡ true)
      × (valid_host_prefix parse_prefix p.ipv6 6 ≡ true)

  abbrev pub command : Str → OperationKind → Peer → List Str
  command name remove p = text "set" ∷ name ∷ text "peer" ∷ p.public_key ∷ text "remove" ∷ []
  command name _ p =
      text "set"
      ∷ name
      ∷ text "peer"
      ∷ p.public_key
      ∷ text "allowed-ips"
      ∷ (p.ipv4 ++ b',' ∷ p.ipv6)
      ∷ []

  pub record IsRunnable (name : Str) (o : Operation) : Type 0 where
    pub named : name ≢ []
    pub safe : All IsSafe name
    pub key : valid_public_key o.peer.public_key ≡ true
    pub shaped : IsShaped o.kind o.peer

  sanitized : (name : Str) → name ≢ [] → name ≡ sanitize_interface_name name → all_safe name ≡ true
  unfolding sanitize_interface_name
  sanitized name ne e = elim (Bool-cases (all_safe name)) [
    | inl s ↦ s
    | inr s ↦ absurd (ground arith)
  ]

  name_guard :
      (name : Str) (o : Operation) (args : List Str)
      → operation_arguments parse_prefix name o ≡ ok args
      → (holds (Str-discrete name []) ≡ false)
        × (holds (Str-discrete name (sanitize_interface_name name)) ≡ true)
        × (valid_public_key o.peer.public_key ≡ true)
        × IsShaped o.kind o.peer
        × (args ≡ command name o.kind o.peer)
  unfolding operation_arguments
  name_guard name o args e = ground arith

  IsRunnable-of_ok :
      (name : Str) (o : Operation) (args : List Str)
      → operation_arguments parse_prefix name o ≡ ok args
      → IsRunnable name o × (args ≡ command name o.kind o.peer)
  IsRunnable-of_ok name o args e =
      let (named, safe, key, shaped, same) = name_guard name o args e in
      let ne = holds_no (Str-discrete name []) named in
      (
        record {
          named = ne;
          safe = (all_safe-IsSafe name).0 (
              sanitized name ne
                (holds_yes (Str-discrete name (sanitize_interface_name name)) safe));
          key = key;
          shaped = shaped;
        },
        same,
      )

  ok_of_IsRunnable :
      (name : Str) (o : Operation)
      → IsRunnable name o
      → operation_arguments parse_prefix name o ≡ ok (command name o.kind o.peer)
  unfolding operation_arguments sanitize_interface_name
  ok_of_IsRunnable name o r =
      let named = r.named in
      let safe = (all_safe-IsSafe name).1 r.safe in
      let key = r.key in let shaped = r.shaped in ground arith

  -- An operation has the arguments of a command exactly when the interface's name is safe and not
  -- empty, the key is canonical, and a removal carries no address while the others carry two host
  -- prefixes; the arguments are those of the command for its kind.
  pub operation_arguments_iff :
      (name : Str) (o : Operation) (args : List Str)
      → (operation_arguments parse_prefix name o ≡ ok args)
        ↔ (IsRunnable name o × (args ≡ command name o.kind o.peer))
  operation_arguments_iff name o args =
      (IsRunnable-of_ok name o args, λ (r, same). ok_of_IsRunnable name o r ∙ ap ok (sym same))

  -- What was done is an initial part of what was asked, and all of it if nothing failed; all that
  -- was done could be run.
  pub record IsPrefixRun (name : Str) (ops : List Operation) (r : List Operation × Option Error)
      : Type 0 where
    pub skipped : List Operation
    pub split : ops ≡ r.0 ++ skipped
    pub whole : r.1 ≡ none → skipped ≡ []
    pub runnable : All (IsRunnable name) r.0

  apply_from-IsPrefixRun :
      (run : ℕ → List Str → Option Error) (name : Str) (n : ℕ) (ops : List Operation)
      → IsPrefixRun name ops (apply_from parse_prefix run name n ops)
  unfolding apply_from
  apply_from-IsPrefixRun run name n [] = record {
    skipped = [];
    split = refl;
    whole = λ e. refl;
    runnable = tt;
  }
  apply_from-IsPrefixRun run name n (o ∷ ops) =
      let later = apply_from-IsPrefixRun run name (suc n) ops in
      elim (Result-cases (operation_arguments parse_prefix name o)) [
        | inl (e, bad) ↦
            rw (bad, apply_from)
              (record {
                skipped = o ∷ ops;
                split = refl;
                whole = λ e'. absurd (ground arith);
                runnable = tt;
              })
        | inr (args, good) ↦ elim (Option-cases (run n args)) [
          | inl fine ↦
              rw (good, fine, apply_from)
                (record {
                  skipped = later.skipped;
                  split = ap (◌∷◌ o) later.split;
                  whole = later.whole;
                  runnable = ((IsRunnable-of_ok name o args good).0, later.runnable);
                })
          | inr (x, failed) ↦
              rw (good, failed, apply_from)
                (record {
                  skipped = o ∷ ops;
                  split = refl;
                  whole = λ e'. absurd (ground arith);
                  runnable = tt;
                })
        ]
      ]

  -- What takes effect is an initial part of the operations asked for, each of them runnable, and
  -- all of them if no error is returned.
  pub apply-IsPrefixRun :
      (b : WireGuardBackend) (ops : List Operation)
      → IsPrefixRun b.interface_name ops (apply parse_prefix b ops)
  unfolding apply
  apply-IsPrefixRun b ops = elim (Option-cases b.runner) [
    | inl e ↦
        rw (e, apply)
          (record {
            skipped = ops;
            split = refl;
            whole = λ e'. absurd (ground arith);
            runnable = tt;
          })
    | inr (run, e) ↦
        elim (Bool-cases
          (holds (Str-discrete b.interface_name []) || ltb max_peers_per_snapshot (length ops))) [
            | inl bad ↦
                rw (e, bad, apply)
                  (record {
                    skipped = ops;
                    split = refl;
                    whole = λ e'. absurd (ground arith);
                    runnable = tt;
                  })
            | inr good ↦ rw (e, good, apply) (apply_from-IsPrefixRun run b.interface_name 0 ops)
          ]
  ]

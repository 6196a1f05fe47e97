-- ===== src/Agent/Worker/Calls.antt =====
-- What a list of calls did: whether a delivery was acknowledged, and the peers of the interface.
use personal_vpn.Prelude.{Bool, true, false, List, [], ◌∷◌, Str, Map}
use personal_vpn.Agent.Snapshot.{Peer}
use personal_vpn.Agent.Snapshot.Operations.{perform_all}
use personal_vpn.Agent.Worker.{Call, claimed, applied, acked, retried}

abbrev pub acks : List Call → Bool
acks [] = false
acks (acked id generation ∷ calls) = true
acks (claimed ∷ calls) = acks calls
acks (applied ops done ∷ calls) = acks calls
acks (retried id at cause ∷ calls) = acks calls

-- The peers of the interface after the calls.
abbrev pub interface_after : List Call → Map Str Peer → Map Str Peer
interface_after [] m = m
interface_after (applied ops done ∷ calls) m = interface_after calls (perform_all done m)
interface_after (claimed ∷ calls) m = interface_after calls m
interface_after (acked id generation ∷ calls) m = interface_after calls m
interface_after (retried id at cause ∷ calls) m = interface_after calls m

-- ===== src/Driver/Machine/Keeps.antt =====
-- linux/v4v.c, "state machines": a step leaves the connection and its queue.
use legacy_v4v.Prelude.{ℕ, ◌≡◌, refl, Bool-cases, inl, inr}
use legacy_v4v.Abi.{StreamHeader}
use legacy_v4v.Driver.{
  Private, SocketState, idle, bound, listening, accepted, connecting, connected, disconnected,
  has_flag, shf_ack, shf_rst,
}
use legacy_v4v.Driver.Machine.{connector_state_machine, connector_rst, connector_ack, try_rst}

-- What a step of the state machine leaves alone.
pub record Keeps (p q : Private) : Type 0 where
  pub conid : q.conid ≡ p.conid
  pub queue : q.pending_recv_list ≡ p.pending_recv_list
  pub count : q.pending_recv_count ≡ p.pending_recv_count

Keeps-refl : (p : Private) → Keeps p p
Keeps-refl p = record { conid = refl; queue = refl; count = refl }

connector_rst-Keeps : (s : SocketState) (p : Private) → Keeps p (connector_rst s p).after
connector_rst-Keeps idle p = Keeps-refl p
connector_rst-Keeps bound p = Keeps-refl p
connector_rst-Keeps listening p = Keeps-refl p
connector_rst-Keeps accepted p = Keeps-refl p
connector_rst-Keeps disconnected p = Keeps-refl p
connector_rst-Keeps connecting p = record { conid = refl; queue = refl; count = refl }
connector_rst-Keeps connected p = record { conid = refl; queue = refl; count = refl }

try_rst-Keeps : (flags : ℕ) (p : Private) → Keeps p (try_rst flags p).after
try_rst-Keeps flags p = elim (Bool-cases (has_flag flags shf_rst)) [
  | inl e ↦ rw e (connector_rst-Keeps p.state p)
  | inr e ↦ rw e (Keeps-refl p)
]

connector_ack-Keeps :
    (s : SocketState) (flags : ℕ) (p : Private) → Keeps p (connector_ack s flags p).after
connector_ack-Keeps idle flags p = try_rst-Keeps flags p
connector_ack-Keeps bound flags p = try_rst-Keeps flags p
connector_ack-Keeps listening flags p = try_rst-Keeps flags p
connector_ack-Keeps accepted flags p = try_rst-Keeps flags p
connector_ack-Keeps connecting flags p = record { conid = refl; queue = refl; count = refl }
connector_ack-Keeps connected flags p = record { conid = refl; queue = refl; count = refl }
connector_ack-Keeps disconnected flags p = record { conid = refl; queue = refl; count = refl }

pub connector_state_machine-Keeps :
    (p : Private) (sh : StreamHeader) → Keeps p (connector_state_machine p sh).after
unfolding connector_state_machine
connector_state_machine-Keeps p sh = elim (Bool-cases (has_flag sh.flags shf_ack)) [
  | inl e ↦ rw e (connector_ack-Keeps p.state sh.flags p)
  | inr e ↦ rw e (try_rst-Keeps sh.flags p)
]

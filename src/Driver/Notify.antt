-- ===== src/Driver/Notify.antt =====
-- linux/v4v.c, "notify": the hypervisor says which rings have room now, and what waited for them is
-- sent or woken.
pub mod Wake
pub mod Served
use legacy_v4v.Prelude.{
  ℕ, zero, suc, ◌+◌, ◌-◌, Bool, true, false, ◌&&◌, not, Option, none, some, List, [], ◌∷◌, ◌++◌,
  map, ◌==◌, if◌then◌else◌, length, take,
}
use legacy_v4v.Abi.{Addr, RingId, same_addr}
use legacy_v4v.Errno.{Ret, is_eagain, is_nonzero}
use legacy_v4v.Driver.{
  Ring, rtype_listener, PendingXmit, XmitType, xmit_inline, waitq_match_sponsor,
  waitq_match_privates, Query, Driver, Env, Event, send, notify, null_notify, wake_writeq, M, pure,
  ◌>>=◌, ◌>>◌, skip, load_ring, load_private, store_private, emit, hypercall, allocate, has_flag,
}
use legacy_v4v.Driver.Ports.{find_ring_by_id, find_ring_by_id_type}

abbrev pub ring_data_f_exists : ℕ
ring_data_f_exists = 2

abbrev pub ring_data_f_sufficient : ℕ
ring_data_f_sufficient = 8

abbrev pub unblock : ℕ → M (Unit {0})
unblock a = do
  p ← load_private a
  store_private a (record p { send_blocked = 0 })
  emit (wake_writeq a)

-- The loop of wakeup_privates: the first private of this peer and connection.
unfoldable pub wakeup_first : Addr → ℕ → List ℕ → M (Unit {0})
wakeup_first peer conid [] = skip
wakeup_first peer conid (a ∷ l) =
    let rest = wakeup_first peer conid l in
    load_private a >>= λ p. if p.conid == conid && same_addr peer p.peer then unblock a else rest

unfoldable pub wakeup_privates : RingId → Addr → ℕ → M (Unit {0})
wakeup_privates id peer conid d = elim (find_ring_by_id_type id rtype_listener d.ring_list) [
  | none ↦ skip d
  | some address ↦ (load_ring address >>= λ r. wakeup_first peer conid r.privates) d
]

unfoldable pub wakeup_sponsor : RingId → M (Unit {0})
wakeup_sponsor id d = elim (find_ring_by_id id d.ring_list) [
  | none ↦ skip d
  | some address ↦
      (load_ring address >>= λ r. elim r.sponsor [ none ↦ skip | some a ↦ unblock a ]) d
]

-- One entry whose ring has the flags `flags`: whether it is done with.
unfoldable pub process : Env → ℕ → PendingXmit → M Bool
process env flags p =
    let enough = has_flag flags ring_data_f_sufficient in
    if has_flag flags ring_data_f_exists
    then (elim p.type [
      | xmit_inline ↦
          if enough
          then (do
            ret ← hypercall env (send p.from.addr p.to p.bytes p.protocol)
            pure (not (is_eagain ret)))
          else pure false
      | waitq_match_sponsor ↦ if enough then (wakeup_sponsor p.from >> pure true) else pure false
      | waitq_match_privates ↦
          if enough then (wakeup_privates p.from p.to p.conid >> pure true) else pure false
    ])
    else pure true

-- The second loop of v4v_notify over the rest of the list, with `i` of the `nent` answers used: what
-- is left of it, and how many entries went. Behind the last answer nothing is looked at.
unfoldable pub process_all : Env → (ℕ → ℕ) → ℕ → ℕ → List PendingXmit → M (List PendingXmit × ℕ)
process_all env flags nent i [] = pure ([], 0)
process_all env flags nent i (p ∷ l) =
    let rest = process_all env flags nent (i + 1) l in
    if i == nent then pure (p ∷ l, 0) else (do
      processed ← process env (flags i) p
      left ← rest
      pure (if processed then (left.0, left.1 + 1) else (p ∷ left.0, left.1)))

abbrev pub query_of : PendingXmit → Query
query_of p = record { ring = p.to; space_required = p.len }

-- v4v_notify
unfoldable pub notify_pending : Env → M (Unit {0})
notify_pending env d =
    let nent = d.pending_xmit_count in
    (do
      got ← allocate env
      if got
          then (do
            ret ← hypercall env (notify (map query_of (take nent d.pending_xmit_list)))
            if is_nonzero ret then skip else answered nent)
          else skip)
      d
  where
    answered : ℕ → M (Unit {0})
    answered nent d' =
        (do
          left ← process_all env (env.ring_flags d'.trace) nent 0 d'.pending_xmit_list
          (λ d''. skip (record d'' {
            pending_xmit_list = left.0;
            pending_xmit_count = d''.pending_xmit_count - left.1;
          })))
          d'

-- v4v_null_notify
unfoldable pub notify_nothing : Env → M (Unit {0})
notify_nothing env = hypercall env null_notify >>= λ ret. skip

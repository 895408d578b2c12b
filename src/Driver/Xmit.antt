-- ===== src/Driver/Xmit.antt =====
-- linux/v4v.c, "pending xmits": messages and wakeups that wait for room in another domain's ring.
pub mod Wakeups
use legacy_v4v.Prelude.{
  ℕ, ◌+◌, ◌-◌, Bool, true, false, ◌&&◌, not, Option, none, some, List, [], ◌∷◌, ◌++◌, map, ◌==◌,
  if◌then◌else◌, length,
}
use legacy_v4v.Abi.{
  Addr, RingId, StreamHeader, same_addr, same_id, stream_header_bytes, stream_header_size,
  proto_stream,
}
use legacy_v4v.Errno.{Errno, enomem, Ret, ok, err, is_eagain}
use legacy_v4v.Driver.{
  PendingXmit, XmitType, xmit_inline, waitq_match_sponsor, waitq_match_privates, Driver, Env, Event,
  send, M, pure, ◌>>=◌, ◌>>◌, skip, hypercall, allocate, shf_rst,
}

abbrev pub same_type : XmitType → XmitType → Bool
same_type xmit_inline xmit_inline = true
same_type waitq_match_sponsor waitq_match_sponsor = true
same_type waitq_match_privates waitq_match_privates = true
same_type _ _ = false

-- Does a queued entry ask for the wakeup of this private, or of this ring's sponsor?
abbrev pub matches_private : RingId → ℕ → Addr → PendingXmit → Bool
matches_private from conid to p =
    same_type p.type waitq_match_privates
    && (p.conid == conid && (same_id from p.from && same_addr to p.to))

abbrev pub matches_sponsor : RingId → Addr → PendingXmit → Bool
matches_sponsor from to p =
    same_type p.type waitq_match_sponsor && (same_id from p.from && same_addr to p.to)

-- The list with its first matching entry replaced by `f` of it, or `none` if there is no such entry.
unfoldable pub change_first :
    (PendingXmit → Bool)
    → (PendingXmit → List PendingXmit)
    → List PendingXmit
    → Option (List PendingXmit)
change_first test f [] = none
change_first test f (p ∷ l) =
    let rest = change_first test f l in
    if test p then some (f p ++ l) else (elim rest [ none ↦ none | some l' ↦ some (p ∷ l') ])

abbrev pub push_xmit : PendingXmit → M (Unit {0})
push_xmit p d = skip (record d {
  pending_xmit_list = d.pending_xmit_list ++ (p ∷ []);
  pending_xmit_count = d.pending_xmit_count + 1;
})

-- The common loop of xmit_queue_wakeup_private and xmit_queue_wakeup_sponsor.
unfoldable pub queue_wakeup : Env → (PendingXmit → Bool) → PendingXmit → Bool → M (Unit {0})
queue_wakeup env test entry delete d =
    let dropped = change_first test (λ p. []) d.pending_xmit_list in
    let resized = change_first test (λ p. record p { len = entry.len } ∷ []) d.pending_xmit_list in
    if delete
    then (elim dropped [
      | none ↦ skip d
      | some l ↦
          skip (record d { pending_xmit_list = l; pending_xmit_count = d.pending_xmit_count - 1 })
    ])
    else (elim resized [
      | none ↦ (do got ← allocate env; if got then push_xmit entry else skip) d
      | some l ↦ skip (record d { pending_xmit_list = l })
    ])

abbrev pub private_entry : RingId → ℕ → Addr → ℕ → PendingXmit
private_entry from conid to len = record {
  type = waitq_match_privates;
  conid = conid;
  from = from;
  to = to;
  len = len;
  protocol = 0;
  bytes = [];
}

abbrev pub sponsor_entry : RingId → Addr → ℕ → PendingXmit
sponsor_entry from to len = record (private_entry from 0 to len) { type = waitq_match_sponsor }

unfoldable pub xmit_queue_wakeup_private : Env → RingId → ℕ → Addr → ℕ → Bool → M (Unit {0})
xmit_queue_wakeup_private env from conid to len delete =
    queue_wakeup env (matches_private from conid to) (private_entry from conid to len) delete

unfoldable pub xmit_queue_wakeup_sponsor : Env → RingId → Addr → ℕ → Bool → M (Unit {0})
xmit_queue_wakeup_sponsor env from to len delete =
    queue_wakeup env (matches_sponsor from to) (sponsor_entry from to len) delete

abbrev pub inline_entry : RingId → Addr → List ℕ → ℕ → PendingXmit
inline_entry from to buf protocol = record {
  type = xmit_inline;
  conid = 0;
  from = from;
  to = to;
  len = length buf;
  protocol = protocol;
  bytes = buf;
}

-- xmit_queue_inline: send now, or queue if the other ring is full.
unfoldable pub xmit_queue_inline : Env → RingId → Addr → List ℕ → ℕ → M Ret
xmit_queue_inline env from to buf protocol = do
  ret ← hypercall env (send from.addr to buf protocol)
  if is_eagain ret
      then (do
        got ← allocate env
        if got
            then (push_xmit (inline_entry from to buf protocol) >> pure (ok (length buf)))
            else pure (err enomem))
      else pure ret

-- xmit_queue_rst_to, of an address that is not NULL
unfoldable pub xmit_queue_rst_to : Env → RingId → ℕ → Addr → M (Unit {0})
xmit_queue_rst_to env from conid to = do
  ret ←
      xmit_queue_inline env from to
        (stream_header_bytes (record { flags = shf_rst; conid = conid })) proto_stream
  skip

-- ===== src/Xen/Tests.antt =====
-- An empty ring of 64 bytes, sends and receives on it, and the theorems on them.
use legacy_v4v.Prelude.{◌≡◌, refl, true, false, none, some, List, [], ◌∷◌, arith, replicate, ltb}
use legacy_v4v.Abi.{ring_magic, domid_none, proto_dgram}
use legacy_v4v.Errno.{ok, err, eagain, emsgsize}
use legacy_v4v.Ring.{bytes_to_read}
use legacy_v4v.Ring.Frames.{Message, Holds}
use legacy_v4v.Ring.Receive.{delivery}
use legacy_v4v.Xen.{GuestMemory, RingInfo, ringbuf_insert}
use legacy_v4v.Xen.Insert.{IsSynced}
use legacy_v4v.Xen.Channel.{
  Sendable, Accessible, Op, send, receive, sent, received, run_ring, run_queue,
  ringbuf_insert-appends, ringbuf_insert-refuses, run_ring-eq-run_queue,
}

abbrev one_page : GuestMemory
one_page = record { mapped = λ i. ltb i 1; readable = λ l. true }

abbrev idle : RingInfo
idle = record {
  len = 64;
  tx_ptr = 32;
  guest = record {
    magic = ring_magic;
    id = record { addr = record { port = 80; domain = 1 }; partner = domid_none };
    len = 64;
    rx_ptr = 32;
    tx_ptr = 32;
    ring = replicate 64 0x5a;
  };
}

abbrev note : Message
note = record {
  source = record { port = 9; domain = 3 };
  protocol = proto_dgram;
  payload = replicate 20 7;
}

abbrev letter : Message
letter = record note { payload = replicate 49 8 }

abbrev script : List Op
script =
    send note
    ∷ send note
    ∷ receive true 4 false
    ∷ receive true 64 true
    ∷ receive true 64 true
    ∷ send letter
    ∷ []

one_page-Accessible : Accessible one_page 64
one_page-Accessible = record { mapped = λ i h. ground arith; readable = λ l. refl }

idle-IsSynced : IsSynced idle
idle-IsSynced = omega arith

idle-Holds : Holds idle.guest []
unfolding bytes_to_read
idle-Holds = refl

note-Sendable : Sendable note
note-Sendable = omega arith

letter-Sendable : Sendable letter
letter-Sendable = omega arith

run_queue-script :
    run_queue 64 [] script
    ≡ sent (ok 20)
      ∷ sent (err eagain)
      ∷ received (some (delivery note true 4))
      ∷ received (some (delivery note true 64))
      ∷ received none
      ∷ sent (err emsgsize)
      ∷ []
unfolding run_queue
run_queue-script = refl

run_ring-eq-run_queue_example : run_ring one_page idle script ≡ run_queue 64 [] script
run_ring-eq-run_queue_example =
    run_ring-eq-run_queue one_page script idle [] one_page-Accessible idle-IsSynced idle-Holds
      (note-Sendable, (note-Sendable, (letter-Sendable, tt)))

ringbuf_insert-appends_example :
    (info : RingInfo) × (ringbuf_insert one_page idle note.source proto_dgram note.payload
      ≡ (ok 20, info))
    × IsSynced info
    × Holds info.guest (note ∷ [])
    × (info.len ≡ 64)
ringbuf_insert-appends_example =
    ringbuf_insert-appends one_page idle note [] one_page-Accessible idle-IsSynced note-Sendable
      idle-Holds (omega arith)

ringbuf_insert-refuses_example :
    ringbuf_insert one_page idle letter.source proto_dgram letter.payload ≡ (err emsgsize, idle)
ringbuf_insert-refuses_example =
    ringbuf_insert-refuses one_page idle letter [] one_page-Accessible idle-IsSynced letter-Sendable
      idle-Holds (omega arith)

-- ===== src/Driver/Tests/Streams.antt =====
-- The theorems on state machines, the interrupt and the stream, applied.
use legacy_v4v.Driver.Listener.Answered.{Answered, drain-verdict}
use legacy_v4v.Prelude.{◌≡◌, refl, true, false, some, [], ◌∷◌, arith, length}
use legacy_v4v.Errno.{ok, err}
use legacy_v4v.Ring.Frames.{IsValid, Holds}
use legacy_v4v.Ring.Receive.{popped}
use legacy_v4v.Driver.{Private, connected, disconnected, Driver, ◌>>=◌, update, shf_ack, shf_rst}
use legacy_v4v.Driver.Machine.Transitions.{run_connector, run_connector-verdict}
use legacy_v4v.Driver.Stream.{recv_stream, copy_pending}
use legacy_v4v.Driver.Stream.Copy.{
  AreEntries, CopiesStream, pending_bytes, always, copy_pending_lem,
}
use legacy_v4v.Driver.Stream.Read.{recv_stream_lem}
use legacy_v4v.Driver.Interrupt.{copy_into_pending_recv}
use legacy_v4v.Driver.Interrupt.Queue.{queue_result, copy_into_pending_recv_lem}
use legacy_v4v.Driver.{kmalloc, wake_readq}
use legacy_v4v.Driver.Interrupt.{connector_interrupt}
use legacy_v4v.Driver.Interrupt.Connector.{connector_interrupt-queues}
use legacy_v4v.Driver.Fops.Readable.{poll-recv_stream}
use legacy_v4v.Errno.{eagain}
use legacy_v4v.Driver.Listener.{drain, drain_fuel}
use legacy_v4v.Driver.Listener.Drained.{Emptied, drain_lem}
use legacy_v4v.Driver.Delivery.{copy_into_pending_recv-recv_stream}
use legacy_v4v.Driver.Tests.{
  dialling_driver, goodbye-IsOwn, data_header, greeting, shared, shared-IsValid, shared-Holds,
  socket, dialling, ring, driver, env, socket-AreEntries, socket_connected, goodbye, ending,
  last_ring, ending-IsValid, ending-Holds, greeting-IsData, idle_driver, poll-idle,
}

run_connector-verdict_example :
    (run_connector dialling (
      data_header
      ∷ record data_header { flags = shf_ack }
      ∷ record data_header { flags = shf_rst }
      ∷ [])).state
    ≡ disconnected
run_connector-verdict_example =
    run_connector-verdict
      (data_header
        ∷ record data_header { flags = shf_ack }
        ∷ record data_header { flags = shf_rst }
        ∷ [])
      dialling refl

copy_pending_lem_example :
    CopiesStream 1 socket.pending_recv_list (copy_pending always 0 1 socket.pending_recv_list)
copy_pending_lem_example = copy_pending_lem socket.pending_recv_list 0 1 socket-AreEntries

recv_stream_lem_example :
    (p' : Private) × (recv_stream env always 1 1 false true driver
      ≡ some ((ok 1, 8 ∷ []), record driver { privates = update driver.privates 1 (some p') }))
    × (pending_bytes p'.pending_recv_list ≡ 9 ∷ [])
    × AreEntries p'.pending_recv_list
    × (p'.pending_recv_count ≡ length p'.pending_recv_list)
    × (p'.state ≡ connected)
recv_stream_lem_example =
    recv_stream_lem env 1 1 driver socket refl socket_connected socket-AreEntries refl refl

copy_into_pending_recv_lem_example :
    (copy_into_pending_recv env 100 12 1 driver
      ≡ some (queue_result env 100 1 driver socket ring greeting))
    × IsValid (popped shared greeting)
    × Holds (popped shared greeting) []
copy_into_pending_recv_lem_example =
    copy_into_pending_recv_lem env 100 1 driver socket ring greeting [] refl refl shared-IsValid
      shared-Holds (omega arith)

-- A read of four bytes takes the two that waited and the first two of the message.
copy_into_pending_recv-recv_stream_example :
    (d' : Driver) × (p' : Private) × ((copy_into_pending_recv env 100 12 1 >>= λ done.
    recv_stream env always 1 4 false true)
        driver
      ≡ some ((ok 4, 8 ∷ 9 ∷ 1 ∷ 2 ∷ []), d'))
    × (d'.privates 1 ≡ some p')
    × (pending_bytes p'.pending_recv_list ≡ 3 ∷ 4 ∷ [])
    × AreEntries p'.pending_recv_list
copy_into_pending_recv-recv_stream_example =
    copy_into_pending_recv-recv_stream env 100 1 4 driver socket ring greeting [] refl refl
      shared-IsValid shared-Holds (omega arith) (omega arith) refl socket_connected
      socket-AreEntries refl

connector_interrupt-queues_example :
    connector_interrupt env 100 driver
    ≡ some (
      (queue_result env 100 1 driver socket ring greeting).0,
      record (queue_result env 100 1 driver socket ring greeting).1 {
        trace = wake_readq 1 ∷ kmalloc ∷ [];
      },
    )
connector_interrupt-queues_example =
    connector_interrupt-queues env 100 1 driver socket ring greeting [] refl refl refl
      shared-IsValid shared-Holds refl (omega arith) refl refl refl

-- The reset refuses the connection.
drain-verdict_example :
    (d' : Driver) × (drain (connector_interrupt env) (drain_fuel ending) 100 dialling_driver
      ≡ some (tt, d'))
    × Answered 100 1 dialling (goodbye ∷ []) disconnected d'
drain-verdict_example =
    drain-verdict env 100 1 dialling_driver dialling last_ring (goodbye ∷ []) (λ t. refl) refl refl
      refl refl ending-IsValid ending-Holds (goodbye-IsOwn, tt) (omega arith)

drain_lem_example :
    (d' : Driver) × (drain (connector_interrupt env) (drain_fuel shared) 100 driver ≡ some (tt, d'))
    × Emptied 100 1 socket (greeting ∷ []) d'
drain_lem_example =
    drain_lem env 100 1 driver socket ring (greeting ∷ []) (λ t. refl) refl refl refl shared-IsValid
      shared-Holds (greeting-IsData, tt) (omega arith)

poll-recv_stream_example :
    (d' : Driver) × (recv_stream env always 1 4 false true idle_driver
      ≡ some ((err eagain, []), d'))
poll-recv_stream_example =
    poll-recv_stream env 1 4 idle_driver
      (record socket { pending_recv_list = []; pending_recv_count = 0 })
      (record { readable = false; writable = true }) refl refl socket_connected tt refl refl
      poll-idle refl

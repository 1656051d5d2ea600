-- ===== src/Tests/Driver.antt =====
-- The port table, the queues and the three polling functions on concrete inputs.
use cros_rt.Base.{
  ℕ, ◌≡◌, ◌<◌, refl, true, false, List, [], ◌∷◌, some, done, arith, feed, if◌then◌else◌, ◌==◌,
}
use cros_rt.Base.Cint.{mul_int}
use cros_rt.Base.Int.{pos}
use cros_rt.Tests.Data.{queue, snoc, hash, hash_lt, no_ports, three_messages}
use cros_rt.Driver.Ports.{
  scan_in_use, Ports, set_port_priority, remove_port_priority, get_next_highest_priority,
}
use cros_rt.Driver.Ports.Laws.{IsWellFormed, set-IsWellFormed, remove-marks, remove-set}
use cros_rt.Driver.RtPoll.{Rt}
use cros_rt.Driver.RtPoll.Order.{IsCovered, poll_times, contents, downward, poll_times-order}
use cros_rt.Driver.NonRt.{process_ms, NonRt}
use cros_rt.Driver.Ports.Stacks.{priorities_in}
use cros_rt.Driver.Ports.Refine.{
  Call, set, remove, get, next, observe, table_call, stack_call, view, table-refines,
}

three_messages-IsCovered : IsCovered queue snoc 5 three_messages
three_messages-IsCovered = record {
  marked = record { positive = omega arith; covered = λ i lo hi free. ground arith };
  enough = λ i. ground arith;
}

poll_times-order_example :
    (t : Rt (List ℕ) (List ℕ)) × (poll_times queue snoc 3 5 three_messages ≡ some t)
    × (t.gro ≡ feed snoc [] (downward (contents queue snoc three_messages) 3))
poll_times-order_example =
    poll_times-order queue snoc 3 5 three_messages three_messages-IsCovered (omega arith)

three_messages_order : downward (contents queue snoc three_messages) 3 ≡ 10 ∷ 11 ∷ 12 ∷ []
three_messages_order = refl

abbrev one_port : Ports
one_port = record {
  table = λ b. if 0 == b then record { port = pos 7411; priority = pos 20 } ∷ [] else [];
  in_use = λ i. if 20 == i then true else false;
}

one_port_set : set_port_priority hash true (pos 20) (pos 7411) no_ports ≡ done one_port
unfolding set_port_priority
one_port_set = refl

no_ports-IsWellFormed : IsWellFormed hash hash_lt no_ports
no_ports-IsWellFormed = λ b. tt

one_port-IsWellFormed : IsWellFormed hash hash_lt one_port
one_port-IsWellFormed =
    set-IsWellFormed hash hash_lt true (pos 20) (pos 7411) no_ports one_port no_ports-IsWellFormed
      one_port_set

abbrev removed : Ports
removed = record no_ports { in_use = one_port.in_use }

removed_one : remove_port_priority hash (pos 7411) one_port ≡ done removed
removed_one =
    remove-set hash hash_lt (pos 20) (pos 7411) no_ports one_port no_ports-IsWellFormed one_port_set

remove-marks_example :
    (t : Ports) × (remove_port_priority hash (pos 7411) no_ports ≡ done t)
    × ((i : ℕ) → 0 < i → t.in_use i ≡ false)
remove-marks_example = remove-marks hash hash_lt (pos 7411) no_ports no_ports-IsWellFormed

abbrev waiting_messages : NonRt (List ℕ) (List ℕ)
waiting_messages = record { non_rt = 20 ∷ 21 ∷ 22 ∷ []; gro = [] }

share : process_ms (pos 20) (pos 20) ≡ done (pos 4)
unfolding process_ms mul_int
share = refl

-- A period of 20 ms with a share of 20 per cent: 4 ms, so two packets.

-- Setting a port twice, looking it up, removing it once, and looking for the next priority.
abbrev calls : List Call
calls =
    set true (pos 20) (pos 7411)
    ∷ set true (pos 30) (pos 7411)
    ∷ get (pos 7411)
    ∷ remove (pos 7411)
    ∷ get (pos 7411)
    ∷ next 99
    ∷ []

table-refines_example :
    observe (table_call hash) calls no_ports ≡ observe stack_call calls (view hash hash_lt no_ports)
table-refines_example = table-refines hash hash_lt calls no_ports (λ b. tt)

calls_answer :
    observe stack_call calls (view hash hash_lt no_ports)
    ≡ done (pos 0)
      ∷ done (pos 0)
      ∷ done (pos 30)
      ∷ done (pos 0)
      ∷ done (pos 20)
      ∷ done (pos 30)
      ∷ []
unfolding observe stack_call get_next_highest_priority scan_in_use priorities_in
calls_answer = refl

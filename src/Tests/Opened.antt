-- ===== src/Tests/Opened.antt =====
-- Opening and closing the device, with all that it asks for and without a page.
use cros_rt.Base.{arith, ◌≡◌, ◌+◌, refl, Bool, true, false, none, some, done, ◌==◌, if◌then◌else◌}
use cros_rt.Tests.Data.{queue, three_packets}
use cros_rt.Tests.Rings.{frame}
use cros_rt.Driver.Rings.{
  Held, OpenAnswers, rtl_open, rtl_close, init_ring, open_filled, rx_fill, fill_from, alloc_rx_data,
}
use cros_rt.Driver.Rings.Opened.{FirmwareEnds, IsClosed, Ends, queues_taken, rtl_open-Ends}
use cros_rt.Driver.Rings.Closed.{rtl_close-open}

abbrev closed : Held
closed = record {
  tx_ring = false;
  rx_ring = false;
  bufs = record {
    databuff = λ i. none;
    addr = λ i. 0;
    desc = λ i. record frame { own = false };
    pages = 3;
    mappings = 4;
  };
  queues = 0;
  firmware = false;
  irq = false;
  phy = false;
  up = false;
}

closed-IsClosed : IsClosed 3 4 closed
closed-IsClosed = record {
  no_tx_ring = refl;
  no_rx_ring = refl;
  no_buffer = λ i. refl;
  pages_freed = refl;
  mappings_freed = refl;
  no_irq = refl;
  no_phy = refl;
  down = refl;
}

-- The third page is missing.
abbrev no_third_page : OpenAnswers
no_third_page = record {
  tx_ring = true;
  rx_ring = true;
  pq = true;
  room = 170;
  non_rt = true;
  firmware = true;
  page = λ i. if i == 2 then none else some i;
  mapping = λ i. some (4096 + i);
  irq = true;
  phy = true;
}

abbrev all_there : OpenAnswers
all_there = record no_third_page { page = λ i. some i }

rtl_open-Ends_example :
    (ok : Bool) × (t : Held) × (rtl_open queue three_packets no_third_page closed ≡ done (ok, t))
    × Ends 3 4 ok t
    × (t.queues ≡ 0 + queues_taken no_third_page)
    × FirmwareEnds false true ok t
rtl_open-Ends_example =
    rtl_open-Ends 3 4 queue three_packets no_third_page closed closed-IsClosed refl (omega arith)
      refl

abbrev filled : Held
filled = record closed {
  tx_ring = true;
  rx_ring = true;
  bufs = (rx_fill (λ i. some i) (λ i. some (4096 + i)) closed.bufs).1;
  queues = 2;
}

abbrev opened : Held
opened = record filled { firmware = true; irq = true; phy = true; up = true }

opened_run : rtl_open queue three_packets all_there closed ≡ done (true, opened)
unfolding rtl_open init_ring open_filled rx_fill fill_from alloc_rx_data
opened_run = refl

rtl_close-open_example :
    IsClosed 3 4 (rtl_close opened)
    × ((rtl_close opened).queues ≡ 0 + 2)
    × ((rtl_close opened).firmware ≡ true)
rtl_close-open_example =
    rtl_close-open 3 4 queue three_packets all_there closed opened closed-IsClosed refl
      (omega arith) refl opened_run

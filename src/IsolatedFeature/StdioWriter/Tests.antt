-- ===== src/IsolatedFeature/StdioWriter/Tests.antt =====
-- kestrel_sdk/isolated_feature/service.py: concrete interleavings of `_ThreadedStdioWriter`.
use kestrel_sovereign_sdk.Prelude.{ℕ, true, false, none, some, [], ◌∷◌, ◌++◌, ◌≡◌, refl}
use kestrel_sovereign_sdk.IsolatedFeature.StdioWriter.{
  Bytes, frame, stop, Stream, Outside, lost, stopped, returned, Writer, connection_error, terminal,
  open_writer, write, drain, close, takes, raises, work, Reached, opened, wrote, drained, closed,
  worked,
}
use kestrel_sovereign_sdk.IsolatedFeature.StdioWriter.Wire.Delivered.{wire_prefix, stopped_complete}
use kestrel_sovereign_sdk.IsolatedFeature.StdioWriter.Stops.{run, closed_stops}

abbrev two_bytes : Bytes
two_bytes = 65 ∷ 66 ∷ []

-- A frame was written and its drain is queued.
abbrev one_drain : Writer
one_drain = record open_writer {
  jobs = frame two_bytes (some 0) ∷ [];
  drains = 0 ∷ [];
  created = 1;
}

abbrev three_bytes : Bytes
three_bytes = 65 ∷ 66 ∷ 67 ∷ []

-- A third byte was written and never drained, and the writer was closed.
abbrev closed_writer : Writer
closed_writer = record one_drain {
  jobs = frame two_bytes (some 0) ∷ frame (67 ∷ []) none ∷ stop ∷ [];
  closing = true;
}

-- The worker wrote everything, one byte at a time.
abbrev all_sent : Writer
all_sent = record {
  pending = [];
  jobs = [];
  drains = [];
  closing = true;
  terminal_failure = false;
  worker = stopped;
  wire = three_bytes;
  stream_closed = true;
  resolved = returned 0 ∷ [];
  created = 1;
}

-- The stream failed after one byte, and the loop of the drain was closed by then.
abbrev half_sent : Writer
half_sent = record {
  pending = [];
  jobs = [];
  drains = [];
  closing = false;
  terminal_failure = true;
  worker = stopped;
  wire = 65 ∷ [];
  stream_closed = true;
  resolved = lost 0 ∷ [];
  created = 1;
}

-- The stream's behaviour, where the loops are open.
abbrev meeting : Stream → Outside
meeting stream = record { stream = stream; loop_closed = false }

one_drain-Reached : Reached two_bytes one_drain
unfolding write drain
one_drain-Reached =
    drained {s = record open_writer { pending = two_bytes }}
      (wrote {s = open_writer} two_bytes opened refl) refl

closed_writer-Reached : Reached three_bytes closed_writer
unfolding write close
closed_writer-Reached =
    closed {s = record one_drain { pending = 67 ∷ [] }}
      (wrote {s = one_drain} (67 ∷ []) one_drain-Reached refl)

all_sent-Reached : Reached three_bytes all_sent
unfolding work
all_sent-Reached = worked (meeting (takes 0)) (
    worked (meeting (takes 0)) (
      worked (meeting (takes 0)) (
        worked (meeting (takes 1)) (
          worked (meeting (takes 0)) (
            worked (meeting (takes 0)) (
              worked (meeting (takes 0)) (
                worked (meeting (takes 0)) (
                  worked (meeting (takes 1)) (
                    worked (meeting (takes 1))
                      (worked (meeting (takes 0)) closed_writer-Reached))))))))))

half_sent-Reached : Reached two_bytes half_sent
unfolding work
half_sent-Reached = worked (meeting (takes 0)) (
    worked (meeting (takes 0)) (
      worked (record { stream = takes 0; loop_closed = true })
        (worked (meeting (takes 0))
          (worked (meeting (raises 1)) (worked (meeting (takes 0)) one_drain-Reached)))))

-- Nothing is accepted after the failure.
refused : write two_bytes half_sent ≡ connection_error terminal
unfolding write
refused = refl

wire_prefix_example : (rest : Bytes) × ((65 ∷ []) ++ rest ≡ two_bytes)
wire_prefix_example = wire_prefix two_bytes half_sent half_sent-Reached

stopped_complete_example : all_sent.wire ≡ three_bytes
stopped_complete_example = stopped_complete three_bytes all_sent all_sent-Reached refl refl

closed_stops_example : (n : ℕ) × ((o : ℕ → Outside) → (run o n closed_writer).worker ≡ stopped)
closed_stops_example = closed_stops three_bytes closed_writer closed_writer-Reached refl

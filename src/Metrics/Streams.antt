-- ===== src/Metrics/Streams.antt =====
-- The status of a stream against the mark that it is active.
use traffic_lane_counter.Prelude.{ℕ, ◌≡◌, refl, true, String, string_eq, str_dec, arith}
use traffic_lane_counter.Prelude.Dict.{lookup-insert}
use traffic_lane_counter.Metrics.Snapshot.{snapshot_of, get_camera_metrics}
use traffic_lane_counter.Metrics.{
  Readings, Store, entry_of, output_entry, state_entry, stopped_entry, record_output_frame,
  record_stream_stopped,
}

module _ (v : Readings) where
  entry-stopped :
      (camera : String) (s : Store v)
      → entry_of v camera (record_stream_stopped v camera s) ≡ stopped_entry v (entry_of v camera s)
  unfolding entry_of record_stream_stopped
  entry-stopped camera s =
      ground (arith, lookup-insert camera camera (stopped_entry v (entry_of v camera s)) s)

  snapshot-output :
      (camera : String) (now : ℕ) (s : Store v)
      → get_camera_metrics v camera (record_output_frame v camera now s)
        ≡ snapshot_of v camera (output_entry v now (entry_of v camera s))
  unfolding get_camera_metrics record_output_frame
  snapshot-output camera now s =
      ground (arith, lookup-insert camera camera (output_entry v now (entry_of v camera s)) s)

  -- An output frame that is recorded after its stream was stopped marks the stream as active, while its
  -- status stays "stopped".
  pub output_after_stop :
      (camera : String) (now : ℕ) (s : Store v)
      → let after =
          get_camera_metrics v camera
            (record_output_frame v camera now (record_stream_stopped v camera s)) in
        (after.status ≡ "stopped") × (after.stream_active ≡ true)
  unfolding output_entry stopped_entry state_entry snapshot_of str_dec
  output_after_stop camera now s =
      rw (snapshot-output camera now (record_stream_stopped v camera s))
        (rw (entry-stopped camera s) (refl, refl))

-- ===== src/Logger/Delivery.antt =====
-- What reaches the sinks of a logger.
use logpp.Common.{
  ℕ, ◌+◌, ◌%◌, ◌^◌, ◌<◌, ◌≡◌, refl, Option, none, some, List, [], length, ◌>>=◌, if◌then◌else◌,
  arith,
}
use logpp.Level.{LogLevel}
use logpp.Sinks.{passes}
use logpp.Buffer.{fresh, advance}
use logpp.Buffer.Wellformed.{IsValid}
use logpp.Event.{
  EventLogBuffer, Value, Field, SourceLocation, new_event, write_time, write_thread_id, format_text,
  visit_fields, location,
}
use logpp.Event.Blocks.{AllWritable}
use logpp.Event.Text.{HasText-format_text, HasText-Extends, write_text-HasText, text_size, message}
use logpp.Event.Fields.{
  HasFields-visit_fields, HasFields-visit_fields_wrapped, write_fields-HasFields, fields_size,
  parts,
}
use logpp.Event.Location.{
  read_back, HasLocation-location, HasLocation-Extends, write_source_location-HasLocation,
}
use logpp.Logger.{Logger, is_enabled, send, log, log_at}

-- What a call of the logger gives to write.
pub record Request : Type 0 where
  pub str : List ℕ
  pub args : List Value
  pub fields : List Field

-- The values fit their types, and all of the event fits 32-bit offsets.
pub record IsWritableRequest (r : Request) : Type 0 where
  pub short : length r.str < 2 ^ 32
  pub args_fit : AllWritable r.args
  pub fields_fit : AllWritable (parts r.fields)
  pub size : 72 + text_size r.str r.args + fields_size r.fields < 2 ^ 32

-- An event reads as it was requested.
pub record ReadsAs (now thread : ℕ) (r : Request) (at : Option SourceLocation) (e : EventLogBuffer)
    : Type 0 where
  pub time : e.header.time_point ≡ now
  pub thread_id : e.header.thread_id ≡ thread
  pub text : (f : List ℕ → List Value → List ℕ) → format_text f e ≡ some (message f r.str r.args)
  pub place : (strlen : ℕ → ℕ) → location strlen e ≡ some (read_back strlen at)
  pub visited : length r.fields < 256 → visit_fields e ≡ some r.fields
  pub unvisited : length r.fields % 256 ≡ 0 → visit_fields e ≡ some []

abbrev start : ℕ → ℕ → EventLogBuffer
start now thread = write_thread_id (write_time new_event now) thread

start-IsValid :
    (now thread : ℕ) → IsValid (start now thread).buffer × ((start now thread).buffer.cursor ≡ 48)
unfolding new_event write_time write_thread_id fresh advance
start-IsValid now thread =
    (record { fits = omega arith; room = omega arith; small = omega arith; live = tt }, refl)

location-none :
    (strlen : ℕ → ℕ) (e : EventLogBuffer)
    → e.header.source_location_block_index ≡ 0
    → location strlen e ≡ some none
unfolding location
location-none strlen e h = ground arith

module _ (malloc : ℕ → Option (List ℕ))
    (total : (n : ℕ) → (d : List ℕ) × (malloc n ≡ some d) × (length d ≡ n)) (now thread : ℕ)
    (logger : Logger) (level : LogLevel) (r : Request) where
  -- Where memory can be had, `log` below the logger's level delivers nothing. At the level or above,
  -- it delivers one event, under the logger's name and with the level, to exactly the terminals that
  -- the logger's sink passes that level to, and the event reads as it was requested: the time, the
  -- thread, the text with its arguments formatted, no location, and the fields in order if there are
  -- less than 256 of them.
  pub log-delivers :
      IsWritableRequest r
      → (e : EventLogBuffer) × ReadsAs now thread r none e
        × (log malloc now thread logger r.str r.args level r.fields
            ≡ some (if passes logger.level level then send logger level e else []))
  unfolding log is_enabled
  log-delivers w =
      let (v, at48) = start-IsValid now thread in
      let (os, e, written, has_text, x, m, hd) =
        write_text-HasText malloc total (start now thread) r.str r.args v w.short w.args_fit
          (omega (arith, w.size)) in
      let (os', e', written', has_fields, x', hd') =
        write_fields-HasFields malloc total e r.fields x.valid w.fields_fit
          (omega (arith, w.size)) in
      (
        e',
        record {
          time = unfold new_event write_time write_thread_id in (rw (hd', hd));
          thread_id = unfold new_event write_time write_thread_id in (rw (hd', hd));
          text = λ f. HasText-format_text f (HasText-Extends x' (rw hd') (rw hd') has_text);
          place = λ strlen.
              location-none strlen e'
                (unfold new_event write_time write_thread_id in (rw (hd', hd)));
          visited = HasFields-visit_fields r.fields has_fields;
          unvisited = HasFields-visit_fields_wrapped has_fields;
        },
        rw (written, ◌>>=◌, written') (ground arith),
      )

  -- Where memory can be had, `log` with a source location, of a request whose strings are shorter than
  -- 2^32 bytes, whose addresses and line are less than 2^64 and whose event takes less than 2^32 bytes in all, delivers nothing below the logger's
  -- level. At the level or above, it delivers one event, under the logger's name and with the level, to
  -- exactly the terminals that the logger's sink passes that level to, and the event reads as it was
  -- requested: the time, the thread, the text with its arguments formatted, the line of the location, and
  -- the fields in order if there are less than 256 of them, none if their number is a multiple of 256. The file
  -- of the location reads as the bytes at its address up to the first NUL, whatever the length of its view.
  pub log_at-delivers :
      (l : SourceLocation)
      → IsWritableRequest r
      → l.file.data_at < 2 ^ 64
      → l.line < 2 ^ 64
      → (e : EventLogBuffer) × ReadsAs now thread r (some l) e
        × (log_at malloc now thread logger r.str r.args level l r.fields
            ≡ some (if passes logger.level level then send logger level e else []))
  unfolding log_at is_enabled
  log_at-delivers l w file_fits line_fits =
      let (v, at48) = start-IsValid now thread in
      let (os, e, written, has_text, x, m, hd) =
        write_text-HasText malloc total (start now thread) r.str r.args v w.short w.args_fit
          (omega (arith, w.size)) in
      let (os', e', written', has_location, x', m', hd') =
        write_source_location-HasLocation malloc total e l x.valid (omega (arith, x.grows))
          file_fits line_fits (omega (arith, w.size)) in
      let (os'', e'', written'', has_fields, x'', hd'') =
        write_fields-HasFields malloc total e' r.fields x'.valid w.fields_fit
          (omega (arith, w.size)) in
      (
        e'',
        record {
          time = unfold new_event write_time write_thread_id in (rw (hd'', hd', hd));
          thread_id = unfold new_event write_time write_thread_id in (rw (hd'', hd', hd));
          text = λ f. HasText-format_text f (
              HasText-Extends {e = e'} x'' (rw hd'') (rw hd'')
                (HasText-Extends {e = e} x' (rw hd') (rw hd') has_text));
          place = λ strlen.
              HasLocation-location strlen (HasLocation-Extends {e = e'} x'' (rw hd'') has_location);
          visited = HasFields-visit_fields r.fields has_fields;
          unvisited = HasFields-visit_fields_wrapped has_fields;
        },
        rw (written, ◌>>=◌, written', written'') (ground arith),
      )

-- ===== src/FileSink/Plain/Tests.antt =====
-- A FileSink at concrete steps.
use logpp.Common.{
  ◌≡◌, refl, true, Bool, none, some, List, [], ◌∷◌, ◌++◌, codes, same, if◌then◌else◌,
}
use logpp.Level.{info}
use logpp.Event.{new_event}
use logpp.Logger.{Entry}
use logpp.Format.{OnFormat}
use logpp.Options.{Text}
use logpp.Rolling.{FileSystem}
use logpp.FileSink.Plain.{PlainSink, PlainStep, open_step, close_step, sink_step, run_plain}
use logpp.FileSink.Plain.Written.{text_in, written, run_plain-written}

-- A formatter that prints the name.
abbrev name_only : OnFormat
name_only name level e out = some (out ++ name)

abbrev event : Text → Entry
event name = record { name = name; level = info; buffer = new_event }

abbrev disk : FileSystem
disk q = if same (codes "a.log") q then some (codes "old ") else none

abbrev fresh_sink : PlainSink
fresh_sink = record { formatter = name_only; file = none; files = disk }

abbrev steps : List PlainStep
steps =
    sink_step (event (codes "lost"))
    ∷ open_step (codes "a.log")
    ∷ sink_step (event (codes "one"))
    ∷ open_step (codes "b.log")
    ∷ sink_step (event (codes "two"))
    ∷ close_step
    ∷ sink_step (event (codes "gone"))
    ∷ open_step (codes "a.log")
    ∷ sink_step (event (codes "three"))
    ∷ []

abbrev always : Text → Bool
always path = true

written-steps :
    written always always (λ e. e.name) (codes "a.log") none steps ≡ codes "one\nthree\n"
unfolding written same
written-steps = refl

run_plain-written_example :
    (s' : PlainSink) × (run_plain always always steps fresh_sink ≡ some s')
    × (text_in s'.files (codes "a.log")
        ≡ text_in disk (codes "a.log")
          ++ written always always (λ e. e.name) (codes "a.log") none steps)
run_plain-written_example =
    run_plain-written always always (λ e. e.name) (codes "a.log") steps fresh_sink (λ e. refl)

-- ===== src/Watcher/History.antt =====
-- What a watcher is told, and the calls that follow from it.
use logpp.Common.{ℕ, Option, none, some, List, [], ◌∷◌, ◌++◌, if◌then◌else◌, ◌==◌}
use logpp.Watcher.{
  InotifyEvent, Read, events, again, failed, Polled, idle, other_event, readable, WatchStep,
  add_step, remove_step, poll_step,
}

-- What the system has told the watcher: a descriptor for a path with a callback, or an event.
pub data News : Type 0 where
  watching : ℕ → List ℕ → ℕ → News
  event : InotifyEvent → News

-- From the newest on: the first path and callback that a descriptor was given for, since the system last
-- dropped the descriptor.
unfoldable pub watched : List News → ℕ → Option (ℕ × List ℕ)
watched [] wd = none
watched (watching k path callback ∷ past) wd = elim (watched past wd) [
  | some e ↦ some e
  | none ↦ if wd == k then some (callback, path) else none
]
watched (event e ∷ past) wd =
    let before = watched past wd in
    if e.ignored then (if wd == e.wd then none else before) else before

-- The calls, oldest first: one for each event of a watched descriptor that is not dropped by it.
unfoldable pub calls : List News → List (ℕ × List ℕ)
unfolding watched
calls [] = []
calls (watching k path callback ∷ past) = calls past
calls (event e ∷ past) =
    let before = calls past in
    if e.ignored
    then before
    else elim (watched past e.wd) [ none ↦ before | some c ↦ before ++ (c ∷ []) ]

-- The news of steps whose reads do not fail, newest first.
abbrev pub news_of_events : List InotifyEvent → List News → List News
news_of_events [] past = past
news_of_events (e ∷ es) past = news_of_events es (event e ∷ past)

abbrev pub news_of_reads : List Read → List News → List News
news_of_reads [] past = past
news_of_reads (events es ∷ reads) past = news_of_reads reads (news_of_events es past)
news_of_reads (again ∷ reads) past = past
news_of_reads (failed ∷ reads) past = past

abbrev pub news_of_poll : Polled → List News → List News
news_of_poll idle past = past
news_of_poll other_event past = past
news_of_poll (readable reads) past = news_of_reads reads past

abbrev pub news_of_step : WatchStep → List News → List News
news_of_step (add_step path callback none) past = past
news_of_step (add_step path callback (some wd)) past = watching wd path callback ∷ past
news_of_step (remove_step id removed) past = past
news_of_step (poll_step future p) past = news_of_poll p past

abbrev pub news : List WatchStep → List News → List News
news [] past = past
news (x ∷ xs) past = news xs (news_of_step x past)

-- Every read gives events, up to one that gives EAGAIN.
abbrev pub Reads : List Read → Type 0
Reads [] = ⊥
Reads (events es ∷ reads) = Reads reads
Reads (again ∷ reads) = Unit
Reads (failed ∷ reads) = ⊥

abbrev pub NeverFails : List WatchStep → Type 0
NeverFails [] = Unit
NeverFails (add_step path callback wd ∷ xs) = NeverFails xs
NeverFails (remove_step id removed ∷ xs) = NeverFails xs
NeverFails (poll_step future idle ∷ xs) = NeverFails xs
NeverFails (poll_step future other_event ∷ xs) = NeverFails xs
NeverFails (poll_step future (readable reads) ∷ xs) = Reads reads × NeverFails xs

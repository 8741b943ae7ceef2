-- ===== src/Sinks/Routes.antt =====
-- Which terminals hear an event: those on whose way no level is above the event's.
use logpp.Common.{
  ℕ, List, [], ◌∷◌, ◌++◌, leb, if◌then◌else◌, max, ◌≡◌, refl, arith, ap, ◌∙◌, append-nil,
  append_assoc, sym,
}
use logpp.Level.{LogLevel, level_index}
use logpp.Sinks.{
  Sink, Sinks, terminal, noop, level_sink, multi_sink, nil, cons, sink, sink_all, add_sink,
}

-- Each terminal below a sink, with the highest level on its way, where `t` is that above the sink.
mutual
  pub routes : Sink → ℕ → List (ℕ × ℕ)
  routes (terminal n) t = (n, t) ∷ []
  routes noop t = []
  routes (level_sink inner own) t = routes inner (max t (level_index own))
  routes (multi_sink inner) t = routes_all inner t

  pub routes_all : Sinks → ℕ → List (ℕ × ℕ)
  routes_all nil t = []
  routes_all (cons s rest) t = routes s t ++ routes_all rest t

-- The terminals whose threshold is at most `v`.
pub heard : ℕ → List (ℕ × ℕ) → List ℕ
heard v [] = []
heard v ((n, t) ∷ rest) = if leb t v then n ∷ heard v rest else heard v rest

heard-append : (v : ℕ) (xs ys : List (ℕ × ℕ)) → heard v (xs ++ ys) ≡ heard v xs ++ heard v ys
unfolding heard
heard-append v [] ys = refl
heard-append v ((n, t) ∷ xs) ys = ground (arith, heard-append v xs ys)

mutual
  unfolding routes routes_all sink sink_all heard

  routed :
      (s : Sink) (t : ℕ) (level : LogLevel)
      → heard (level_index level) (routes s t)
        ≡ (if leb t (level_index level) then sink s level else [])
  routed (terminal n) t level = ground arith
  routed noop t level = ground arith
  routed (level_sink inner own) t level =
      ground (arith, routed inner (max t (level_index own)) level)
  routed (multi_sink inner) t level = routed_all inner t level

  routed_all :
      (s : Sinks) (t : ℕ) (level : LogLevel)
      → heard (level_index level) (routes_all s t)
        ≡ (if leb t (level_index level) then sink_all s level else [])
  routed_all nil t level = ground arith
  routed_all (cons s rest) t level = ground (
    arith,
    heard-append (level_index level) (routes s t) (routes_all rest t),
    routed s t level,
    routed_all rest t level,
  )

-- An event reaches, in the order of the tree and once for each way to it, exactly the terminals on
-- whose way from the root no `LevelSink` has a level above the event's.
pub sink-heard :
    (s : Sink) (level : LogLevel) → sink s level ≡ heard (level_index level) (routes s 0)
sink-heard s level = sym (routed s 0 level ∙ ground arith)

-- A sink that is added to a `MultiSink` hears each event after those that were there.
pub sink_all-add_sink :
    (inner : Sinks) (s : Sink) (level : LogLevel)
    → sink (multi_sink (add_sink inner s)) level ≡ sink (multi_sink inner) level ++ sink s level
unfolding sink sink_all add_sink
sink_all-add_sink nil s level = append-nil (sink s level)
sink_all-add_sink (cons t rest) s level =
    ap (◌++◌ (sink t level)) (sink_all-add_sink rest s level)
    ∙ sym (append_assoc (sink t level) (sink_all rest level) (sink s level))

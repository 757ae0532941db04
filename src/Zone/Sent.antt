-- ===== src/Zone/Sent.antt =====
-- The listing of a zone by hostname, and the events of a drift cycle.
use mathlib.Core.List.{reverse, reverse-append, append_assoc}
use cf_edge_operator.Prelude.{
  ◌≡◌, inl, inr, refl, ap, sym, ◌∙◌, String, Bool, ◌==◌, Option, none, some, List, [], ◌∷◌, ◌++◌,
  arith, if◌then◌else◌, Bool-cases,
}
use cf_edge_operator.Prelude.Assoc
use cf_edge_operator.Api.Domains.{Zone}
use cf_edge_operator.Api.Saas.{CustomHostname}
use cf_edge_operator.Api.Cloudflare.{HostnameResponse}
use cf_edge_operator.Platform.Calls.{Call, Trace}
use cf_edge_operator.Platform.Env.{Env, received}
use cf_edge_operator.Platform.Action.{World, pure, call, peek, ◌>>=◌}
use cf_edge_operator.Platform.State.{read_events, write_events}
use cf_edge_operator.Zone.Config.{ZoneReconciler}
use cf_edge_operator.Zone.Channel.{overflow}
use cf_edge_operator.Zone.Counts.{needs_reconcile}
use cf_edge_operator.Zone.Listing.{Hostnames, collect}
use cf_edge_operator.Zone.Events.{buffered_events, enqueue, blocked, send_drift_event}
use cf_edge_operator.Zone.Drift.{Scan, scan_cr, scan_crs}

-- The last item of a name, the reference for the map by name.
unfoldable pub last_match : String → List HostnameResponse → Option HostnameResponse
last_match hostname [] = none
last_match hostname (x ∷ xs) = elim (last_match hostname xs) [
  | none ↦ if x.hostname == hostname then some x else none
  | some y ↦ some y
]

abbrev pub or_old {ℓ} : {A : Type ℓ} → Option A → Option A → Option A
or_old none old = old
or_old (some a) old = some a

get-collect_from :
    (hostname : String) (items : List HostnameResponse) (m : Hostnames)
    → Assoc.get hostname (collect items m)
      ≡ or_old (last_match hostname items) (Assoc.get hostname m)
unfolding collect last_match
get-collect_from hostname [] m = refl
get-collect_from hostname (x ∷ xs) m = ground (
  arith,
  get-collect_from hostname xs (Assoc.put x.hostname x m),
  Assoc.get-put x.hostname hostname x m,
)

-- The map of a listing holds, under each name, the last listed hostname of that name.
pub get-collect :
    (hostname : String) (items : List HostnameResponse)
    → Assoc.get hostname (collect items []) ≡ last_match hostname items
unfolding Assoc.get
get-collect hostname items = ground (arith, get-collect_from hostname items [])

-- The custom resources sent to the worker, the latest first.
abbrev pub sent : Trace → List CustomHostname
sent [] = []
sent (Call.send_event ch ∷ t) = ch ∷ sent t
sent (_ ∷ t) = sent t

abbrev pub select {ℓ} : {A : Type ℓ} → (A → Bool) → List A → List A
select p [] = []
select p (x ∷ xs) = if p x then x ∷ select p xs else select p xs

reverse-cons-append :
    {A : Type 0} (x : A) (xs ys : List A) → reverse (x ∷ xs) ++ ys ≡ reverse xs ++ x ∷ ys
reverse-cons-append x xs ys =
    ap (λ l. l ++ ys) (reverse-append (x ∷ []) xs) ∙ append_assoc (reverse xs) (x ∷ []) ys

module _ (env : Env) (zr : ZoneReconciler) where
  send_drift_event-sent :
      (ch : CustomHostname) (w : World)
      → ((t : Trace) → env.blocked_send t ≡ received)
      → sent (send_drift_event env zr ch w).1.trace ≡ ch ∷ sent w.trace
  unfolding send_drift_event buffered_events enqueue blocked read_events write_events ◌>>=◌ call
      peek pure
  send_drift_event-sent ch w running = ground (arith, running (overflow w))

  module _ (zone : Zone) (cf_hostnames : Hostnames) where
    scan_cr-sent :
        (ch : CustomHostname) (s : Scan) (w : World)
        → ((t : Trace) → env.blocked_send t ≡ received)
        → sent (scan_cr env zr zone cf_hostnames ch s w).1.trace ≡ (
            if needs_reconcile env zr zone cf_hostnames ch then ch ∷ sent w.trace else sent w.trace)
    unfolding scan_cr ◌>>=◌ pure
    scan_cr-sent ch s w running = ground (arith, send_drift_event-sent ch w running)

    abbrev rest : List CustomHostname → List CustomHostname
    rest = select (needs_reconcile env zr zone cf_hostnames)

    -- If no blocked send ends by a shutdown, a drift cycle sends exactly the listed custom
    -- resources that belong to the zone and need a reconcile, each once, in the order of the list.
    pub scan_crs-sent :
        (chs : List CustomHostname) (s : Scan) (w : World)
        → ((t : Trace) → env.blocked_send t ≡ received)
        → sent (scan_crs env zr zone cf_hostnames chs s w).1.trace
          ≡ reverse (select (needs_reconcile env zr zone cf_hostnames) chs) ++ sent w.trace
    unfolding scan_crs ◌>>=◌ pure
    scan_crs-sent [] s w running = refl
    scan_crs-sent (ch ∷ chs) s w running =
        let step = scan_cr env zr zone cf_hostnames ch s w in
        elim (Bool-cases (needs_reconcile env zr zone cf_hostnames ch)) [
          | inl needed ↦ rw needed (
              scan_crs-sent chs step.0 step.1 running
              ∙ ap (λ t. reverse (rest chs) ++ t) (scan_cr-sent ch s w running ∙ rw needed refl)
              ∙ sym (reverse-cons-append ch (rest chs) (sent w.trace)))
          | inr fine ↦ rw fine (
              scan_crs-sent chs step.0 step.1 running
              ∙ ap (λ t. reverse (rest chs) ++ t) (scan_cr-sent ch s w running ∙ rw fine refl))
        ]

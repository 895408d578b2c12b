-- ===== src/Driver/Live.antt =====
-- linux/v4v.c: no ring points to a socket that is gone. A monadic step that keeps this, and the
-- rings and the queue of pending xmits, is harmless.
use legacy_v4v.Prelude.{ℕ, ◌≡◌, refl, sym, ◌∙◌, subst, Option, none, some, List, [], ◌∷◌}
use legacy_v4v.Driver.{Ring, Private, Driver, Event}

abbrev pub IsLive : Driver → ℕ → Type 0
IsLive d a = (p : Private) × (d.privates a ≡ some p)

abbrev pub AllLive : Driver → List ℕ → Type 0
AllLive d [] = Unit
AllLive d (a ∷ l) = IsLive d a × AllLive d l

abbrev pub IsLiveSponsor : Driver → Option ℕ → Type 0
IsLiveSponsor d none = Unit
IsLiveSponsor d (some a) = IsLive d a

abbrev pub AreLiveRings : Driver → List (ℕ × Ring) → Type 0
AreLiveRings d [] = Unit
AreLiveRings d ((a, r) ∷ l) = AllLive d r.privates × IsLiveSponsor d r.sponsor × AreLiveRings d l

-- No ring points to a socket that is gone.
abbrev pub NoDangling : Driver → Type 0
NoDangling d = AreLiveRings d d.ring_list

-- What a harmless step may change: sockets, but none goes.
pub record Harmless (d d' : Driver) : Type 0 where
  pub rings : d'.ring_list ≡ d.ring_list
  pub queue : d'.pending_xmit_list ≡ d.pending_xmit_list
  pub count : d'.pending_xmit_count ≡ d.pending_xmit_count
  pub live : (a : ℕ) → IsLive d a → IsLive d' a

module _ (d d' : Driver) (live : (a : ℕ) → IsLive d a → IsLive d' a) where
  all_live : (l : List ℕ) → AllLive d l → AllLive d' l
  all_live [] h = tt
  all_live (a ∷ l) (h, hs) = (live a h, all_live l hs)

  live_sponsor : (o : Option ℕ) → IsLiveSponsor d o → IsLiveSponsor d' o
  live_sponsor none h = tt
  live_sponsor (some a) h = live a h

  live_rings : (l : List (ℕ × Ring)) → AreLiveRings d l → AreLiveRings d' l
  live_rings [] h = tt
  live_rings ((a, r) ∷ l) (h, hs, hr) =
      (all_live r.privates h, live_sponsor r.sponsor hs, live_rings l hr)

pub NoDangling-Harmless : (d d' : Driver) → Harmless d d' → NoDangling d → NoDangling d'
NoDangling-Harmless d d' h n =
    subst (λ l. AreLiveRings d' l) (sym h.rings) (live_rings d d' h.live d.ring_list n)

pub Harmless-refl : (d : Driver) → Harmless d d
Harmless-refl d = record { rings = refl; queue = refl; count = refl; live = λ a h. h }

pub Harmless-trans : (d d' d'' : Driver) → Harmless d d' → Harmless d' d'' → Harmless d d''
Harmless-trans d d' d'' h k = record {
  rings = k.rings ∙ h.rings;
  queue = k.queue ∙ h.queue;
  count = k.count ∙ h.count;
  live = λ a l. k.live a (h.live a l);
}

pub traced : (d : Driver) (e : Event) → Harmless d (record d { trace = e ∷ d.trace })
traced d e = record { rings = refl; queue = refl; count = refl; live = λ a h. h }

-- ===== src/Frontend/Toasts.antt =====
-- frontend/src/store/toast.js: the messages on the screen. The browser's clock is a parameter in that
-- a timer is an event, which dismisses the toast that set it.
use transactguard.Prelude.{
  ℕ, ◌+◌, ◌<◌, ◌≡◌, refl, arith, String, Bool, not, Option, List, [], ◌∷◌, ◌++◌, ◌==◌, ltb, filter,
  if◌then◌else◌, All, All-append, inl, inr, Bool-cases,
}

pub data Tone : Type 0 where
  success_tone error_tone info_tone : Tone

pub record Toast : Type 0 where
  pub id : ℕ
  pub tone : Tone
  pub title : String
  pub description : Option String

-- `nextId`, the toasts, and the timers that are set, by the toasts that they dismiss.
pub record Toasts : Type 0 where
  pub next_id : ℕ
  pub toasts : List Toast
  pub timers : List ℕ

abbrev no_toasts : Toasts
no_toasts = record { next_id = 1; toasts = []; timers = [] }

push : Tone → String → Option String → ℕ → Toasts → ℕ × Toasts
push tone title description duration s =
    let id = s.next_id in
    (
      id,
      record {
        next_id = id + 1;
        toasts =
            s.toasts
            ++ (record { id = id; tone = tone; title = title; description = description } ∷ []);
        timers = if ltb 0 duration then id ∷ s.timers else s.timers;
      },
    )

dismiss : ℕ → Toasts → Toasts
dismiss id s = record s { toasts = filter (λ t. not (t.id == id)) s.toasts }

-- `toast.success`, `toast.error` and `toast.info`
abbrev default_duration : ℕ
default_duration = 4200

toast_success : String → Option String → Toasts → ℕ × Toasts
toast_success title description s = push success_tone title description default_duration s

toast_error : String → Option String → Toasts → ℕ × Toasts
toast_error title description s = push error_tone title description 6500 s

toast_info : String → Option String → Toasts → ℕ × Toasts
toast_info title description s = push info_tone title description default_duration s

pub data ToastEvent : Type 0 where
  pushed : Tone → String → Option String → (duration : ℕ) → ToastEvent
  dismissed : ℕ → ToastEvent

toast_event : ToastEvent → Toasts → Toasts
toast_event (pushed tone title description duration) s = (push tone title description duration s).1
toast_event (dismissed id) s = dismiss id s

toast_events : List ToastEvent → Toasts → Toasts
toast_events [] s = s
toast_events (e ∷ rest) s = toast_events rest (toast_event e s)

-- Ids ascend, all below the next.
abbrev Ascend : List Toast → ℕ → Type 0
Ascend [] next = Unit
Ascend (t ∷ ts) next = (t.id < next) × All (λ u. t.id < u.id) ts × Ascend ts next

Ascend-push :
    (ts : List Toast) (next : ℕ) (t : Toast)
    → t.id ≡ next
    → Ascend ts next
    → Ascend (ts ++ (t ∷ [])) (next + 1)
Ascend-push [] next t e h = (omega (arith, e), tt, tt)
Ascend-push (u ∷ ts) next t e (lt, all, rest) = (
  omega (arith, lt),
  All-append (λ v. u.id < v.id) ts (t ∷ []) all (omega (arith, lt, e), tt),
  Ascend-push ts next t e rest,
)

All-filter :
    (P : Toast → Type 0) (p : Toast → Bool) (ts : List Toast) → All P ts → All P (filter p ts)
All-filter P p [] h = tt
All-filter P p (t ∷ ts) h = elim (Bool-cases (p t)) [
  | inl y ↦ rw y (h.0, All-filter P p ts h.1)
  | inr n ↦ rw n (All-filter P p ts h.1)
]

Ascend-filter :
    (p : Toast → Bool) (ts : List Toast) (next : ℕ) → Ascend ts next → Ascend (filter p ts) next
Ascend-filter p [] next h = tt
Ascend-filter p (t ∷ ts) next (lt, all, rest) = elim (Bool-cases (p t)) [
  | inl y ↦ rw y (lt, All-filter (λ u. t.id < u.id) p ts all, Ascend-filter p ts next rest)
  | inr n ↦ rw n (Ascend-filter p ts next rest)
]

toast_events-from :
    (events : List ToastEvent) (s : Toasts)
    → Ascend s.toasts s.next_id
    → Ascend (toast_events events s).toasts (toast_events events s).next_id
unfolding toast_events toast_event push dismiss
toast_events-from [] s h = h
toast_events-from (pushed tone title description duration ∷ rest) s h =
    toast_events-from rest (push tone title description duration s).1
      (Ascend-push s.toasts s.next_id _ refl h)
toast_events-from (dismissed id ∷ rest) s h =
    toast_events-from rest (dismiss id s)
      (Ascend-filter (λ t. not (t.id == id)) s.toasts s.next_id h)

-- The toasts on the screen stand in the order of their making, with no id twice, so that a timer can
-- only dismiss the toast that set it.
toast_events-Ascend :
    (events : List ToastEvent)
    → Ascend (toast_events events no_toasts).toasts (toast_events events no_toasts).next_id
toast_events-Ascend events = toast_events-from events no_toasts tt

-- ===== src/AgentCore/InFlight/Laws.antt =====
-- Which tokens are cancelled while a pond is dropped.
use mathlib.Core.List.{Memᴰ}
use latiq.ControlPlane.Registry.Tables.{All-of-Memᴰ}
use latiq.Prelude.{
  String, Bool, true, false, not, ◌≡◌, ◌⊎◌, inl, inr, List, [], ◌∷◌, Option, none, some, ◌==◌,
  string_eq, nat_eq, arith, eqb_iff, eq_iff, any, find, keep, All, Bool-cases, Option-cases,
}
use latiq.AgentCore.InFlight.{
  Token, Entry, InFlight, new, has_op, is_cancelled, is_dropping, on_pond, is_doomed, insert,
  remove, check_tombstone, enter, register, complete, cancel, tokens_on, cancel_for_pond, tombstone,
  begin_drop, end_drop, Call, registers, completed, canceled, begins_drop, ended_drop, call,
  call_all,
}

-- An operation on a pond that is being dropped has a cancelled token.
abbrev pub IsStopped : InFlight → Entry → Type 0
IsStopped s e = is_doomed s e.pond_id ≡ true → is_cancelled s e.token ≡ true

pub record Inv (s : InFlight) : Type 0 where
  pub stopped : All (IsStopped s) s.map

pub any-tokens_on :
    (pond : String) (es : List Entry) (done : List Token) (t : Token)
    → any (λ u. u == t) done ≡ true
    → any (λ u. u == t) (tokens_on pond es done) ≡ true
unfolding any tokens_on
any-tokens_on pond [] done t h = h
any-tokens_on pond (e ∷ es) done t h = ground (arith, any-tokens_on pond es done t h)

pub tokens_on-fresh :
    (pond : String) (t : Token) (es : List Entry) (done : List Token)
    → All (λ x. (x.token == t) ≡ false) es
    → any (λ u. u == t) done ≡ false
    → any (λ u. u == t) (tokens_on pond es done) ≡ false
unfolding any tokens_on
tokens_on-fresh pond t [] done f h = h
tokens_on-fresh pond t (e ∷ es) done (f, fs) h = ground (arith, tokens_on-fresh pond t es done fs h)

module _ {ℓ} {A : Type ℓ} where
  All-keep {κ} : (P : A → Type κ) (p : A → Bool) (xs : List A) → All P xs → All P (keep p xs)
  unfolding keep
  All-keep P p [] h = tt
  All-keep P p (x ∷ xs) (h, hs) = elim (Bool-cases (p x)) [
    | inl e ↦ rw e (h, All-keep P p xs hs)
    | inr e ↦ rw e (All-keep P p xs hs)
  ]

  All-mono {κ μ} :
      (P : A → Type κ) (Q : A → Type μ) (xs : List A) → ((x : A) → P x → Q x) → All P xs → All Q xs
  All-mono P Q [] f h = tt
  All-mono P Q (x ∷ xs) f (h, hs) = (f x h, All-mono P Q xs f hs)

  All-both {κ μ ν} :
      (P : A → Type κ) (Q : A → Type μ) (R : A → Type ν) (xs : List A)
      → ((x : A) → P x → Q x → R x)
      → All P xs
      → All Q xs
      → All R xs
  All-both P Q R [] f h k = tt
  All-both P Q R (x ∷ xs) f (h, hs) (k, ks) = (f x h k, All-both P Q R xs f hs ks)

  any-keep : (p q : A → Bool) (xs : List A) → any p (keep q xs) ≡ true → any p xs ≡ true
  unfolding any keep
  any-keep p q [] h = h
  any-keep p q (x ∷ xs) h = ground (arith, any-keep p q xs)

end_drop-doomed :
    (pond : String) (s : InFlight) (p : Option String)
    → is_doomed (end_drop pond s) p ≡ true
    → is_doomed s p ≡ true
unfolding end_drop
end_drop-doomed pond s none h = h
end_drop-doomed pond s (some p) h = any-keep (λ q. q == p) (λ q. not (q == pond)) s.dropping h

register-Inv :
    (op : String) (t : Token) (pond : Option String) (s : InFlight)
    → Inv s
    → Inv (register op t pond s)
unfolding register check_tombstone enter insert any
register-Inv op t pond s v = record {
  stopped = (
    λ h. rw h (ground (arith, eqb_iff t t)),
    All-keep (IsStopped (register op t pond s)) _ s.map (
        All-mono (IsStopped s) (IsStopped (register op t pond s)) s.map
          (λ x f h. ground (arith, f h)) v.stopped),
  );
}

complete-Inv : (op : String) (s : InFlight) → Inv s → Inv (complete op s)
unfolding complete remove
complete-Inv op s v = record { stopped = All-keep _ _ s.map v.stopped }

cancel-Inv : (op : String) (s : InFlight) → Inv s → Inv (cancel op s)
unfolding cancel any
cancel-Inv op s v = elim (Option-cases (find (has_op op) s.map)) [
  | inl e ↦ rw (e, cancel) v
  | inr (x, e) ↦
      rw (e, cancel)
        (record {
          stopped = All-mono (IsStopped s) _ s.map (λ y f h. ground (arith, f h)) v.stopped;
        })
]

-- After `cancel_for_pond` the operations on the pond are cancelled, and the others are as they were.
on_pond-cancelled :
    (pond : String) (s : InFlight) (es : List Entry)
    → All
        (λ e.
          on_pond pond e.pond_id ≡ true
          → any (λ u. u == e.token) (tokens_on pond es s.cancelled) ≡ true)
        es
unfolding tokens_on any
on_pond-cancelled pond s [] = tt
on_pond-cancelled pond s (e ∷ es) = (
  λ h. rw h (ground (arith, eqb_iff e.token e.token)),
  All-mono _ _ es (λ x f h. ground (arith, f h)) (on_pond-cancelled pond s es),
)

tombstone-doomed :
    (pond : String) (s : InFlight) (p : Option String)
    → is_doomed (tombstone pond s) p ≡ true
    → (on_pond pond p ≡ true) ⊎ (is_doomed s p ≡ true)
unfolding tombstone any
tombstone-doomed pond s none h = inr h
tombstone-doomed pond s (some p) h = elim (Bool-cases (is_dropping s pond)) [
  | inl e ↦ inr (rw e at h)
  | inr e ↦ elim (Bool-cases (pond == p)) [
    | inl same ↦ inl (ground (arith, eq_iff pond p, eq_iff p pond))
    | inr other ↦ inr (rw other at (rw e at h))
  ]
]

begin_drop-Inv : (pond : String) (s : InFlight) → Inv s → Inv (begin_drop pond s)
unfolding begin_drop cancel_for_pond tombstone any
begin_drop-Inv pond s v = record {
  stopped =
      All-both (IsStopped s) _ _ s.map
        (λ e old cut doomed. elim (tombstone-doomed pond s e.pond_id doomed) [
          | inl here ↦ cut here
          | inr before ↦ any-tokens_on pond s.map s.cancelled e.token (old before)
        ])
        v.stopped (on_pond-cancelled pond s s.map);
}

end_drop-Inv : (pond : String) (s : InFlight) → Inv s → Inv (end_drop pond s)
unfolding end_drop
end_drop-Inv pond s v = record {
  stopped =
      All-mono (IsStopped s) _ s.map (λ e f h. f (end_drop-doomed pond s e.pond_id h)) v.stopped;
}

call-Inv : (c : Call) (s : InFlight) → Inv s → Inv (call c s)
unfolding call
call-Inv (registers op t pond) s v = register-Inv op t pond s v
call-Inv (completed op) s v = complete-Inv op s v
call-Inv (canceled op) s v = cancel-Inv op s v
call-Inv (begins_drop pond) s v = begin_drop-Inv pond s v
call-Inv (ended_drop pond) s v = end_drop-Inv pond s v

calls-Inv : (cs : List Call) (s : InFlight) → Inv s → Inv (call_all cs s)
unfolding call_all
calls-Inv [] s v = v
calls-Inv (c ∷ cs) s v = calls-Inv cs (call c s) (call-Inv c s v)

-- After any sequence of the registry's methods in which none interrupts another, a registered
-- operation on a pond that is being dropped has a cancelled token.
pub call_all-is_cancelled :
    (cs : List Call) (e : Entry) (pond : String)
    → Memᴰ e (call_all cs new).map
    → e.pond_id ≡ some pond
    → is_dropping (call_all cs new) pond ≡ true
    → is_cancelled (call_all cs new) e.token ≡ true
call_all-is_cancelled cs e pond m at_pond dropped =
    All-of-Memᴰ (IsStopped (call_all cs new)) (call_all cs new).map e
      (calls-Inv cs new (record { stopped = tt })).stopped m (rw at_pond dropped)

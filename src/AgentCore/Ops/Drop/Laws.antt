-- ===== src/AgentCore/Ops/Drop/Laws.antt =====
-- What a drop leaves, whether it succeeds or fails.
use latiq.Prelude.{
  String, Bool, true, false, not, ◌≡◌, refl, sym, ap, ◌∙◌, inl, inr, ◌⊎◌, List, [], ◌∷◌, none, some,
  arith, ◌==◌, string_eq, any, keep, Result, ok, err, Bool-cases, Option-cases, result_cases,
}
use mathlib.Core.Path.{subst}
use latiq.Common.Identity.{Identity}
use latiq.Storage.LocalFs.{
  Disk, Rmdir, removed, kept, PondLocation, StorageError, pond_exists, pond_location, is_dir_of,
}
use latiq.Storage.LocalFs as Files
use latiq.Storage.LocalFs.Laws.{drop_pond-removed}
use latiq.AgentCore.Control.{PondInfo, AgentError, ControlPlane}
use latiq.AgentCore.Placement.{route}
use latiq.AgentCore.InFlight.{InFlight, begin_drop, end_drop, is_dropping}
use latiq.AgentCore.Deadline.{EngineError}
use latiq.AgentCore.Ops.{
  Config, Env, Node, Engine, Forwarder, entry, audit, audit_err, parsed_id, routed,
}
use latiq.AgentCore.Ops.Trail.{looked_up, dispatch-found}
use latiq.AgentCore.Ops.Drop.{
  evict_lineage_writer, forget_at, destroy, settled, drop_here, drop_local, drop_pond,
}

any-keep-not : (p : String → Bool) (xs : List String) → any p (keep (λ x. not (p x)) xs) ≡ false
unfolding any keep
any-keep-not p [] = refl
any-keep-not p (x ∷ xs) = ground (arith, any-keep-not p xs)

end_drop-is_dropping : (id : String) (s : InFlight) → is_dropping (end_drop id s) id ≡ false
unfolding end_drop
end_drop-is_dropping id s = any-keep-not (λ p. p == id) s.dropping

-- After a removal that the operating system carries out, the pond does not exist.
drop_pond-gone :
    (pid : String) (disk : Disk) → pond_exists pid (Files.drop_pond pid removed disk).1 ≡ false
unfolding Files.drop_pond
drop_pond-gone pid disk = elim (Bool-cases (pond_exists pid disk)) [
  | inl e ↦ (drop_pond-removed [] pid disk e).1
  | inr e ↦ rw (e, Files.drop_pond) e
]

module _ {S En X D : Type 0} (eng : Engine En X D) (cfg : Config) (env : Env) where
  forget_at-rest :
      (res : Result StorageError PondLocation) (n : Node S En)
      → ((forget_at eng res n).disk ≡ n.disk)
        × ((forget_at eng res n).control ≡ n.control)
        × ((forget_at eng res n).access ≡ n.access)
        × ((forget_at eng res n).inflight ≡ n.inflight)
  unfolding forget_at
  forget_at-rest (ok loc) n = (refl, refl, refl, refl)
  forget_at-rest (err e) n = (refl, refl, refl, refl)

  -- The pond, as the node knows it, is gone.
  pub record IsDestroyed (pond_id pid : String) (n n' : Node S En) : Type 0 where
    pub files : pond_exists pid n'.disk ≡ false
    pub writer : any (λ w. w == pond_id) n'.writers ≡ false
    pub tombstone : is_dropping n'.inflight pond_id ≡ false
    pub control : n'.control ≡ n.control
    pub access : n'.access ≡ n.access

  destroy-IsDestroyed :
      (pond_id pid : String) (n : Node S En)
      → env.rmdir ≡ removed
      → IsDestroyed pond_id pid n (destroy eng cfg env pond_id pid n)
  unfolding destroy evict_lineage_writer
  destroy-IsDestroyed pond_id pid n h =
      let (disk, control, access, inflight) =
        forget_at-rest (pond_location cfg.root pid n.disk) n in
      record {
        files =
            rw h (drop_pond-gone pid (forget_at eng (pond_location cfg.root pid n.disk) n).disk);
        writer = any-keep-not (λ w. w == pond_id) _;
        tombstone = end_drop-is_dropping pond_id _;
        control = control;
        access = access;
      }

  -- The node once the registry has answered to the drop.
  abbrev pub begun : ControlPlane S (EngineError X) → PondInfo → Node S En → Node S En
  begun cp info n = record n {
    control = (cp.drop_pond info.pond_id n.control).1;
    inflight = begin_drop info.pond_id n.inflight;
  }

  module _ (cp : ControlPlane S (EngineError X)) where
    pub drop_here_cases :
        (identity : Identity) (info : PondInfo) (pid : String) (n : Node S En)
        → ((cp.drop_pond info.pond_id n.control).0 ≡ ok tt
            × drop_here eng cfg env cp identity info pid n
              ≡ settled eng cfg env identity info pid (ok tt) (begun cp info n))
          ⊎ ((e : AgentError (EngineError X)) × ((cp.drop_pond info.pond_id n.control).0 ≡ err e)
              × (drop_here eng cfg env cp identity info pid n
                  ≡ settled eng cfg env identity info pid (err e) (begun cp info n)))
    unfolding drop_here
    drop_here_cases identity info pid n =
        elim (result_cases (cp.drop_pond info.pond_id n.control).0) [
          | inl (u, q) ↦
              inl (q, ap (λ a. settled eng cfg env identity info pid a (begun cp info n)) q)
          | inr (e, q) ↦
              inr (e, q, ap (λ a. settled eng cfg env identity info pid a (begun cp info n)) q)
        ]

    -- What is true once a pond with this id has been dropped, by a control plane that was in the state `asked`.
    pub record IsDropped (identity : Identity) (info : PondInfo) (asked : S) (n n' : Node S En)
        : Type 0 where
      pub pid : String
      pub parsed : cfg.parse_uuid info.pond_id ≡ some pid
      pub files : pond_exists pid n'.disk ≡ false
      pub answer : (cp.drop_pond info.pond_id asked).0 ≡ ok tt
      pub control : n'.control ≡ (cp.drop_pond info.pond_id asked).1
      pub writer : any (λ w. w == info.pond_id) n'.writers ≡ false
      pub tombstone : is_dropping n'.inflight info.pond_id ≡ false
      pub access : n'.access ≡ entry identity "drop_pond" (some info.pond_id) none true ∷ n.access

    settled-IsDropped :
        (identity : Identity) (info : PondInfo) (pid : String) (n : Node S En)
        → env.rmdir ≡ removed
        → cfg.parse_uuid info.pond_id ≡ some pid
        → (cp.drop_pond info.pond_id n.control).0 ≡ ok tt
        → IsDropped identity info n.control n
            (settled eng cfg env identity info pid (ok tt) (begun cp info n)).1
    unfolding settled audit
    settled-IsDropped identity info pid n h parsed q =
        let d = destroy-IsDestroyed info.pond_id pid (begun cp info n) h in
        record {
          pid = pid;
          parsed = parsed;
          files = d.files;
          answer = q;
          control = d.control;
          writer = d.writer;
          tombstone = d.tombstone;
          access = ap (λ t. entry identity "drop_pond" (some info.pond_id) none true ∷ t) d.access;
        }

    drop_here-ok :
        (identity : Identity) (info : PondInfo) (pid : String) (n n' : Node S En)
        → env.rmdir ≡ removed
        → cfg.parse_uuid info.pond_id ≡ some pid
        → drop_here eng cfg env cp identity info pid n ≡ (ok tt, n')
        → IsDropped identity info n.control n n'
    unfolding settled audit_err
    drop_here-ok identity info pid n n' h parsed done = elim (drop_here_cases identity info pid n) [
      | inl (q, e) ↦
          subst (IsDropped identity info n.control n) (ap (λ x. x.1) (sym e ∙ done))
            (settled-IsDropped identity info pid n h parsed q)
      | inr (x, q, e) ↦ absurd (cc (ap (λ x. x.0) (sym e ∙ done)))
    ]

    drop_local-ok :
        (identity : Identity) (info : PondInfo) (n n' : Node S En)
        → env.rmdir ≡ removed
        → drop_local eng cfg env cp identity info n ≡ (ok tt, n')
        → IsDropped identity info n.control n n'
    unfolding drop_local parsed_id audit_err
    drop_local-ok identity info n n' h done = elim (Option-cases (cfg.parse_uuid info.pond_id)) [
      | inl q ↦ absurd (ground arith)
      | inr (pid, q) ↦ drop_here-ok identity info pid n n' h q (rw (q, drop_local) at done)
    ]

    drop_pond-here :
        (fwd : Forwarder X D) (identity : Identity) (ref : String) (info : PondInfo) (n : Node S En)
        → (cp.pond_info ref n.control).0 ≡ ok info
        → route n.self info ≡ ok none
        → drop_pond eng cfg env cp fwd identity ref true n
          ≡ drop_local eng cfg env cp identity info (looked_up cp ref n)
    unfolding drop_pond routed
    drop_pond-here fwd identity ref info n found here =
        dispatch-found cp identity "drop_pond" ref _ _ info n found
        ∙ ap
            (λ w.
              routed cp identity "drop_pond" (λ p. fwd.drop_pond p ref true)
                (drop_local eng cfg env cp identity) info w (looked_up cp ref n))
            here

    -- On the node that serves the pond, a drop that succeeds has an answer of the control plane that it dropped the
    -- pond, asked it nothing after that, deleted the pond's files, let go of its lineage writer, lifted its
    -- tombstone and recorded the success, if the operating system removes what it is asked to remove.
    pub drop_pond-ok :
        (fwd : Forwarder X D) (identity : Identity) (ref : String) (info : PondInfo)
        (n n' : Node S En)
        → env.rmdir ≡ removed
        → (cp.pond_info ref n.control).0 ≡ ok info
        → route n.self info ≡ ok none
        → drop_pond eng cfg env cp fwd identity ref true n ≡ (ok tt, n')
        → IsDropped identity info (cp.pond_info ref n.control).1 n n'
    drop_pond-ok fwd identity ref info n n' h found here done =
        let d =
          drop_local-ok identity info (looked_up cp ref n) n' h
            (sym (drop_pond-here fwd identity ref info n found here) ∙ done) in
        record {
          pid = d.pid;
          parsed = d.parsed;
          files = d.files;
          answer = d.answer;
          control = d.control;
          writer = d.writer;
          tombstone = d.tombstone;
          access = d.access;
        }

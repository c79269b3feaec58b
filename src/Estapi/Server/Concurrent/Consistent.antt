-- ===== src/Estapi/Server/Concurrent/Consistent.antt =====
-- Every interleaving of requests keeps the store and the answers right.
use est.Common.{
  set_at, set_at_self, ℕ, ℤ, ◌≡◌, sym, subst, ◌==◌, ==_iff, List, [], ◌∷◌, Bytes, inl, inr,
  Bool-cases,
}
use est.Ca.{CaBackend}
use est.Store.{Store, IsLawful}
use est.Store.Kept.{HasCsrs}
use est.Estapi.Encoding.{Response}
use est.Estapi.Server.{Platform, Request}
use est.Estapi.Server.Concurrent.{Phase, Event, System, advance, receive, take_event, interleave}
use est.Estapi.Server.Concurrent.Sound.{
  IsEnrolledIn, IsEnrollment, IsSound, Keeps-IsSound, IssuesOwn,
}
use est.Estapi.Server.Concurrent.Steps.{advance-IsKept}

module _ (P : Platform) (B : CaBackend) {S : Store} (L : IsLawful S) (csr_attrs_der : Bytes)
    (owner : ℤ → ℕ) where
  abbrev Sound : S.State → ℕ → Phase → Type 0
  Sound = IsSound P B L owner

  -- Every stored certificate has its CSR, and every goroutine is sound.
  pub record IsConsistent (s : System P B S csr_attrs_der) : Type 0 where
    pub csrs : HasCsrs L s.world.store
    pub sound : (i : ℕ) → Sound s.world.store i (s.phase i)

  -- In the run every certificate is issued to the owner of its serial number, so no two goroutines are
  -- issued the same one.
  abbrev pub IssuesApart : System P B S csr_attrs_der → List Event → Type 0
  IssuesApart s [] = Unit {0}
  IssuesApart s (Event.arrive i r ∷ events) =
      IssuesApart (take_event P B S csr_attrs_der s (Event.arrive i r)) events
  IssuesApart s (Event.go_on i ∷ events) =
      IssuesOwn P B L owner i (s.phase i) s.world
      × IssuesApart (take_event P B S csr_attrs_der s (Event.go_on i)) events

  receive-IsSound :
      (r : Request) (s : S.State) (i : ℕ) (p : Phase) → Sound s i p → Sound s i (receive r p)
  unfolding receive
  receive-IsSound r s i Phase.waiting h = tt
  receive-IsSound r s i (Phase.arrived x) h = h
  receive-IsSound r s i (Phase.issuing x csr peer) h = h
  receive-IsSound r s i (Phase.putting_csr x csr cert meta) h = h
  receive-IsSound r s i (Phase.putting_certificate x cert meta) h = h
  receive-IsSound r s i (Phase.encoding x cert) h = h
  receive-IsSound r s i (Phase.answered x out) h = h

  arrive-IsConsistent :
      (s : System P B S csr_attrs_der) (i : ℕ) (r : Request)
      → IsConsistent s
      → IsConsistent (take_event P B S csr_attrs_der s (Event.arrive i r))
  unfolding take_event receive
  arrive-IsConsistent s i r h = record {
    csrs = h.csrs;
    sound = λ j. elim (Bool-cases (i == j)) [
      | inl own ↦
          let received = receive-IsSound r s.world.store i (s.phase i) (h.sound i) in
          subst (λ k. Sound s.world.store k (set_at i (receive r (s.phase i)) s.phase k))
            ((==_iff i j).0 own) (rw (set_at_self i (receive r (s.phase i)) s.phase) received)
      | inr other ↦ rw (other, set_at) (h.sound j)
    ];
  }

  go_on-IsConsistent :
      (s : System P B S csr_attrs_der) (i : ℕ)
      → IsConsistent s
      → IssuesOwn P B L owner i (s.phase i) s.world
      → IsConsistent (take_event P B S csr_attrs_der s (Event.go_on i))
  unfolding take_event
  go_on-IsConsistent s i h own =
      let kept =
        advance-IsKept P B L csr_attrs_der owner i (s.phase i) s.world h.csrs (h.sound i) own in
      let (p, w) = advance P B S csr_attrs_der (s.phase i) s.world in
      record {
        csrs = kept.csrs;
        sound = λ j. elim (Bool-cases (i == j)) [
          | inl same ↦
              subst (λ k. Sound w.store k (set_at i p s.phase k)) ((==_iff i j).0 same)
                (rw (set_at_self i p s.phase) kept.sound)
          | inr other ↦
              rw (other, set_at)
                (Keeps-IsSound P B L owner j (s.phase j)
                  (kept.others j (λ e. cc (other, (==_iff i j).1 e))) (h.sound j))
        ];
      }

  -- Consistency is kept by every interleaving.
  pub interleave-IsConsistent :
      (s : System P B S csr_attrs_der) (events : List Event)
      → IsConsistent s
      → IssuesApart s events
      → IsConsistent (interleave P B S csr_attrs_der s events)
  interleave-IsConsistent s [] h apart = h
  interleave-IsConsistent s (Event.arrive i r ∷ events) h apart =
      interleave-IsConsistent (take_event P B S csr_attrs_der s (Event.arrive i r)) events
        (arrive-IsConsistent s i r h) apart
  interleave-IsConsistent s (Event.go_on i ∷ events) h (own, apart) =
      interleave-IsConsistent (take_event P B S csr_attrs_der s (Event.go_on i)) events
        (go_on-IsConsistent s i h own) apart

  -- Over a lawful store, from a server whose goroutines all wait and whose stored certificates have
  -- their CSRs, in every interleaving of the steps of any requests in which no two goroutines are
  -- issued certificates with one serial number: every stored certificate has its CSR. And every
  -- enrollment that was answered with 200 showed a client certificate, held a CSR (for
  -- `simplereenroll` one of the same identity), and is answered with the message of a certificate that
  -- the backend issued for this CSR; the store holds exactly the raw bytes of the CSR and of the
  -- certificate under its serial number.
  pub interleave_200 :
      (s : System P B S csr_attrs_der) (events : List Event)
      → ((i : ℕ) → s.phase i ≡ Phase.waiting)
      → HasCsrs L s.world.store
      → IssuesApart s events
      → let t = interleave P B S csr_attrs_der s events in
        HasCsrs L t.world.store
        × ((i : ℕ) (r : Request) (out : Response)
            → t.phase i ≡ Phase.answered r out
            → IsEnrollment P B L owner r
            → out.status ≡ 200
            → IsEnrolledIn P B L owner t.world.store i r out)
  interleave_200 s events idle csrs apart =
      let t = interleave P B S csr_attrs_der s events in
      let sound : (i : ℕ) → Sound s.world.store i (s.phase i) =
        λ i. subst (Sound s.world.store i) (sym (idle i)) tt in
      let kept = interleave-IsConsistent s events (record { csrs = csrs; sound = sound }) apart in
      (kept.csrs, λ i r out here. subst (Sound t.world.store i) here (kept.sound i))

-- ===== src/Session/RemoteCandidates/Trickled.antt =====
-- What a session's remote candidates look like after any sequence of additions.
use mathlib.Core.Path.{subst}
use mathlib.Core.List.{append_assoc, append-nil}
use simple_webrtc.Base.{
  ℕ, ◌≤◌, ◌<◌, ◌≡◌, refl, sym, ap, ◌∙◌, Bool, true, false, List, [], ◌∷◌, ◌++◌, length,
  length-append, All, arith,
}
use simple_webrtc.Session.RemoteCandidates.{
  RemoteCandidates, ends_with_end, remote_ice_completed, push_back, add_remote_ice_candidate,
}

module _ {C : Type 0} (end_of_candidates : C → Bool) where
  -- Candidates proper, at most 256 of them, and then only marks of the end.
  pub record IsTrickled (cs : List C) : Type 0 where
    pub candidates : List C
    pub ends : List C
    pub whole : cs ≡ candidates ++ ends
    pub proper : All (λ c. end_of_candidates c ≡ false) candidates
    pub marks : All (λ c. end_of_candidates c ≡ true) ends
    pub few : length candidates ≤ 256

  unfoldable pub add_all : List (ℕ × C) → RemoteCandidates C → RemoteCandidates C
  add_all [] s = s
  add_all ((now, c) ∷ cs) s = add_all cs (add_remote_ice_candidate end_of_candidates now c s).1

  All-append :
      (b : Bool) (xs ys : List C)
      → All (λ c. end_of_candidates c ≡ b) xs
      → All (λ c. end_of_candidates c ≡ b) ys
      → All (λ c. end_of_candidates c ≡ b) (xs ++ ys)
  All-append b [] ys h k = k
  All-append b (x ∷ xs) ys h k = (h.0, All-append b xs ys h.1 k)

  marks_last :
      (e : C) (es : List C)
      → All (λ c. end_of_candidates c ≡ true) (e ∷ es)
      → ends_with_end end_of_candidates (e ∷ es) ≡ true
  unfolding ends_with_end
  marks_last e [] h = h.0
  marks_last e (f ∷ es) h = marks_last f es h.1

  ends-append :
      (xs : List C) (e : C) (es : List C)
      → ends_with_end end_of_candidates (xs ++ e ∷ es) ≡ ends_with_end end_of_candidates (e ∷ es)
  unfolding ends_with_end
  ends-append [] e es = refl
  ends-append (x ∷ []) e es = refl
  ends-append (x ∷ y ∷ xs) e es = ends-append (y ∷ xs) e es

  mark-IsTrickled :
      (c : C) (cs : List C) → end_of_candidates c ≡ true → IsTrickled cs → IsTrickled (cs ++ c ∷ [])
  mark-IsTrickled c cs t v = record {
    candidates = v.candidates;
    ends = v.ends ++ c ∷ [];
    whole = ap (λ xs. xs ++ c ∷ []) v.whole ∙ append_assoc v.candidates v.ends (c ∷ []);
    proper = v.proper;
    marks = All-append true v.ends (c ∷ []) v.marks (t, tt);
    few = v.few;
  }

  candidate-IsTrickled :
      (c : C) (cs candidates ends : List C)
      → end_of_candidates c ≡ false
      → ends_with_end end_of_candidates cs ≡ false
      → length cs < 256
      → cs ≡ candidates ++ ends
      → All (λ c. end_of_candidates c ≡ false) candidates
      → All (λ c. end_of_candidates c ≡ true) ends
      → IsTrickled (cs ++ c ∷ [])
  candidate-IsTrickled c cs candidates [] t n l w p m = record {
    candidates = cs ++ c ∷ [];
    ends = [];
    whole = sym (append-nil (cs ++ c ∷ []));
    proper =
        All-append false cs (c ∷ [])
          (subst (λ xs. All (λ c. end_of_candidates c ≡ false) xs) (sym (w ∙ append-nil candidates))
            p)
          (t, tt);
    marks = tt;
    few = omega (arith, l, length-append cs (c ∷ []));
  }
  candidate-IsTrickled c cs candidates (e ∷ es) t n l w p m =
      absurd (cc (n, w, ends-append candidates e es, marks_last e es m))

  add-IsTrickled :
      (now : ℕ) (c : C) (s : RemoteCandidates C)
      → IsTrickled s.remote_ice_candidates
      → IsTrickled (add_remote_ice_candidate end_of_candidates now c s).1.remote_ice_candidates
  unfolding add_remote_ice_candidate remote_ice_completed push_back
  add-IsTrickled now c s v = ground (
    arith,
    v,
    mark-IsTrickled c s.remote_ice_candidates,
    candidate-IsTrickled c s.remote_ice_candidates v.candidates v.ends,
  )

  adds-IsTrickled :
      (cs : List (ℕ × C)) (s : RemoteCandidates C)
      → IsTrickled s.remote_ice_candidates
      → IsTrickled (add_all cs s).remote_ice_candidates
  unfolding add_all
  adds-IsTrickled [] s v = v
  adds-IsTrickled ((now, c) ∷ cs) s v =
      adds-IsTrickled cs (add_remote_ice_candidate end_of_candidates now c s).1
        (add-IsTrickled now c s v)

  -- After any sequence of additions to a session without candidates, refused ones among them, the
  -- session holds at most 256 candidates proper, and behind them nothing but marks of the end: no
  -- candidate is taken up once an end was signalled.
  pub add_all-IsTrickled :
      (cs : List (ℕ × C)) (now : ℕ)
      → IsTrickled
          (add_all cs (record {
            remote_ice_candidates = [];
            updated_at_milliseconds = now;
          })).remote_ice_candidates
  add_all-IsTrickled cs now =
      adds-IsTrickled cs (record { remote_ice_candidates = []; updated_at_milliseconds = now })
        (record {
          candidates = [];
          ends = [];
          whole = refl;
          proper = tt;
          marks = tt;
          few = omega arith;
        })

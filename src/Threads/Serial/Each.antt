-- ===== src/Threads/Serial/Each.antt =====
-- The commands of each thread in a run of `RedisCommand` (cpp/src/CodisClient.cpp) against those of all threads.
use codis_client.Prelude.{
  own, arith, ℕ, suc, ◌≡◌, refl, sym, ap, subst, ◌∙◌, inl, inr, Bool, false, Bool-cases, List, [],
  ◌∷◌, ◌++◌, some, length, get_elem?, set, get_elem?-set, get_elem?-set_ne, ◌==◌, ==-refl, ==_iff,
  Bytes,
}
use codis_client.Reply.{Reply}
use codis_client.Threads.{Stage}
use codis_client.Threads.Serial.{Event, History, tag, Answers, ServedBy, AllServed, Passes}

own-same : (i : ℕ) (es : List Event) (h : History) → own i (tag i es ++ h) ≡ es ++ own i h
unfolding own
own-same i [] h = refl
own-same i (e ∷ es) h = rw (==-refl i) (ap (λ l. e ∷ l) (own-same i es h))

pub own-other :
    (i j : ℕ) (es : List Event) (h : History) → i == j ≡ false → own i (tag j es ++ h) ≡ own i h
unfolding own
own-other i j [] h ne = refl
own-other i j (e ∷ es) h ne = rw ne (own-other i j es h ne)

ServedBy-self : (loses : Bool) (bid : Bytes) (st : Stage) → ServedBy (Answers loses bid) st [] st
ServedBy-self loses bid (Stage.called args tt') = tt
ServedBy-self loses bid (Stage.waiting argv tv) = tt
ServedBy-self loses bid (Stage.locked argv tv) = tt
ServedBy-self loses bid (Stage.borrowed argv tv c) = tt
ServedBy-self loses bid (Stage.timed argv tv c) = tt
ServedBy-self loses bid (Stage.lost argv tv c) = tt
ServedBy-self loses bid (Stage.retrying argv tv c) = tt
ServedBy-self loses bid (Stage.retimed argv tv c) = tt
ServedBy-self loses bid (Stage.replied c r) = tt
ServedBy-self loses bid (Stage.leaving rep) = tt
ServedBy-self loses bid (Stage.done rep) = (refl, refl)

-- What holds of the replies.
ServedBy-mono :
    (S S' : Stage → List Event → Reply → Type 0) (st st0 st' : Stage) (es es' : List Event)
    → ((rep : Reply) → S st es rep → S' st0 es' rep)
    → ServedBy S st es st'
    → ServedBy S' st0 es' st'
ServedBy-mono S S' st st0 (Stage.done rep) es es' f h = f rep h
ServedBy-mono S S' st st0 (Stage.called args tt') es es' f h = tt
ServedBy-mono S S' st st0 (Stage.waiting argv tv) es es' f h = tt
ServedBy-mono S S' st st0 (Stage.locked argv tv) es es' f h = tt
ServedBy-mono S S' st st0 (Stage.borrowed argv tv c) es es' f h = tt
ServedBy-mono S S' st st0 (Stage.timed argv tv c) es es' f h = tt
ServedBy-mono S S' st st0 (Stage.lost argv tv c) es es' f h = tt
ServedBy-mono S S' st st0 (Stage.retrying argv tv c) es es' f h = tt
ServedBy-mono S S' st st0 (Stage.retimed argv tv c) es es' f h = tt
ServedBy-mono S S' st st0 (Stage.replied c r) es es' f h = tt
ServedBy-mono S S' st st0 (Stage.leaving rep) es es' f h = tt

pub AllServed-mono :
    (S S' : Stage → List Event → Reply → Type 0) (f : ℕ → List Event) (sts sts' : List Stage)
    → ((st : Stage) (es : List Event) (rep : Reply) → S st es rep → S' st es rep)
    → AllServed S f sts sts'
    → AllServed S' f sts sts'
AllServed-mono S S' f [] [] g h = tt
AllServed-mono S S' f [] (st' ∷ sts') g h = h
AllServed-mono S S' f (st ∷ sts) [] g h = h
AllServed-mono S S' f (st ∷ sts) (st' ∷ sts') g h = (
  ServedBy-mono S S' st st st' (f 0) (f 0) (g st (f 0)) h.0,
  AllServed-mono S S' (λ i. f (suc i)) sts sts' g h.1,
)

-- Every thread is served, by its position.
abbrev pub EachServed : Bool → Bytes → List Stage → History → List Stage → Type 0
EachServed loses bid sts h sts'' =
    (i : ℕ) (st st'' : Stage)
    → get_elem? sts i ≡ some st
    → get_elem? sts'' i ≡ some st''
    → ServedBy (Answers loses bid) st (own i h) st''

pub EachServed-self :
    (loses : Bool) (bid : Bytes) (sts : List Stage) → EachServed loses bid sts [] sts
unfolding own
EachServed-self loses bid sts i st st'' e e'' =
    let same : st ≡ st'' = cc in
    subst (ServedBy (Answers loses bid) st []) same (ServedBy-self loses bid st)

pub EachServed-step :
    (loses : Bool) (bid : Bytes) (sts sts'' : List Stage) (j : ℕ) (st st' : Stage) (es : List Event)
    (h : History)
    → get_elem? sts j ≡ some st
    → Passes loses bid st es st'
    → EachServed loses bid (set sts j st') h sts''
    → EachServed loses bid sts (tag j es ++ h) sts''
EachServed-step loses bid sts sts'' j st st' es h there passes each i st0 st'' e e'' =
    elim (Bool-cases (i == j)) [
      | inl own_ ↦
          let i_j : i ≡ j = (==_iff i j).0 own_ in
          let st0_st : st0 ≡ st = cc in
          let mine : own i (tag j es ++ h) ≡ es ++ own i h =
            subst (λ k. own i (tag k es ++ h) ≡ es ++ own i h) i_j (own-same i es h) in
          let there' : get_elem? (set sts j st') i ≡ some st' =
            subst (λ k. get_elem? (set sts j st') k ≡ some st') (sym i_j)
              (get_elem?-set sts j st' st there) in
          rw (mine, st0_st)
            (ServedBy-mono (Answers loses bid) (Answers loses bid) st' st st'' (own i h)
              (es ++ own i h) (passes (own i h)) (each i st' st'' there' e''))
      | inr other ↦
          rw (own-other i j es h other)
            (each i st0 st'' (get_elem?-set_ne sts j i st' (λ x. cc ((==_iff i j).1 x)) ∙ e) e'')
    ]

pub AllServed-EachServed :
    (S : Stage → List Event → Reply → Type 0) (f : ℕ → List Event) (sts sts'' : List Stage)
    → length sts'' ≡ length sts
    → ((i : ℕ) (st st'' : Stage)
        → get_elem? sts i ≡ some st
        → get_elem? sts'' i ≡ some st''
        → ServedBy S st (f i) st'')
    → AllServed S f sts sts''
AllServed-EachServed S f [] [] n each = tt
AllServed-EachServed S f [] (st'' ∷ sts'') n each = cc
AllServed-EachServed S f (st ∷ sts) [] n each = cc
AllServed-EachServed S f (st ∷ sts) (st'' ∷ sts'') n each =
    let g : ℕ → List Event = λ i. f (suc i) in
    (each 0 st st'' refl refl, AllServed-EachServed S g sts sts'' (omega arith) (λ i. each (suc i)))

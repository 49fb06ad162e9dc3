-- ===== src/Log/Together.antt =====
-- Several threads that call `Log` (cpp/include/Log.h): what they leave in the file.
use codis_client.Prelude.{
  true, ℕ, ◌≡◌, refl, sym, ap, subst, ◌∙◌, inl, inr, Bool, List, [], ◌∷◌, ◌++◌, append_assoc,
  append-nil, map, some, own, program, program-map, in_history, Covers-Lifted, ℤ, Bytes, codes,
}
use codis_client.Run.{Run, ok, thrown, fault, exited, Returns, Returns-bind, Returns-mono}
use codis_client.System.{System, SystemLaws, Tm}
use codis_client.Utils.{int2string}
use codis_client.Log.{file_name, entry}
use codis_client.Log.Entries.{log-entry}
use codis_client.Log.Section.{
  Message, Logging, with_stream, log_section, log_message, whole-log_section,
}
use codis_client.ScopedLock.{interleave, start}
use codis_client.ScopedLock.Whole.{whole, caught, one_by_one, finished, Left}
use codis_client.ScopedLock.Atomic.{interleave-one_by_one}

caught-Returns :
    {S : Type 0} (P : Unit {0} → S → Type 0) (r : Run S (Unit {0}))
    → Returns P r
    → Returns P (caught r)
caught-Returns P (ok x s) h = h
caught-Returns P (thrown s) h = absurd h
caught-Returns P fault h = h
caught-Returns P exited h = h

module _ ⦃sys : System⦄ where
  with_stream-Returns :
      (P : sys.World → Type 0) (name : Bytes) (opened : Bool) (r : Run sys.World (Unit {0}))
      → Returns (λ _ w. P w) r
      → Returns (λ _ s. P s.world) (with_stream name opened r)
  with_stream-Returns P name opened (ok x w) h = h
  with_stream-Returns P name opened (thrown w) h = h
  with_stream-Returns P name opened fault h = h
  with_stream-Returns P name opened exited h = h

  -- The entry of a call.
  abbrev pub Added : Message → Bytes → Type 0
  Added m text = (tm : Tm) × (text ≡ entry m.level tm m.msg m.file m.line)

  -- The text that these calls add to the file, one after the other.
  abbrev pub AddedInOrder : List (ℕ × Message) → Bytes → Type 0
  AddedInOrder [] text = text ≡ []
  AddedInOrder ((i, m) ∷ h) text =
      (first : Bytes) × (rest : Bytes) × (text ≡ first ++ rest)
      × Added m first
      × AddedInOrder h rest

module _ ⦃sys : System⦄ (laws : SystemLaws sys)
    (localtime_works : (now : ℤ) (w : sys.World) → (tm : Tm) × ((sys.localtime now w).0 ≡ some tm))
    (one_process : (v w : sys.World) → sys.getpid v ≡ sys.getpid w)
    (opens : (w : sys.World) → (sys.open_append (file_name w) w).0 ≡ true) where
  same_file : (v w : sys.World) → file_name v ≡ file_name w
  same_file v w =
      ap (λ p. codes "codis_client_log_" ++ (int2string p ++ codes ".txt")) (one_process v w)

  -- What the call adds, in the file that the process `w` writes to.
  log_message-Added :
      (m : Message) (w v : sys.World)
      → Returns
          (λ _ t.
            (new : Bytes) × Added m new
            × (laws.content t (file_name w) ≡ laws.content v (file_name w) ++ new))
          (log_message m v)
  log_message-Added m w v =
      subst
        (λ name.
          Returns
            (λ _ t.
              (new : Bytes) × Added m new × (laws.content t name ≡ laws.content v name ++ new))
            (log_message m v))
        (same_file v w)
        (Returns-mono _ _ (log_message m v)
          (log-entry laws localtime_works m.level m.msg m.file m.line v)
          (λ _ t h. elim h [
            | inl (closed, kept) ↦ let opened = opens v in cc
            | inr (opened, (tm, text)) ↦ (_, (tm, refl), text)
          ]))

  one_by_one-AddedInOrder :
      (h : List (ℕ × Message)) (w : sys.World) (s : Logging sys.World)
      → Returns
          (λ _ t.
            (new : Bytes) × AddedInOrder h new
            × (laws.content t.world (file_name w) ≡ laws.content s.world (file_name w) ++ new))
          (one_by_one (map (in_history log_section) h) s)
  unfolding one_by_one
  one_by_one-AddedInOrder [] w s = ([], refl, sym (append-nil _))
  one_by_one-AddedInOrder ((i, m) ∷ h) w s =
      Returns-bind _ _ (caught (whole (log_section m) s))
        (λ _. one_by_one (map (in_history log_section) h))
        (caught-Returns _ (whole (log_section m) s) (
          subst (Returns _) (sym (whole-log_section m s))
            (with_stream-Returns _ _ _ (log_message m s.world) (log_message-Added m w s.world))))
        (λ _ t (first, added, text).
          Returns-mono _ _ (one_by_one (map (in_history log_section) h) t)
            (one_by_one-AddedInOrder h w t)
            (λ _ u (rest, more, text'). (
              first ++ rest,
              (first, rest, refl, added, more),
              text' ∙ (ap (λ x. x ++ rest) text ∙ append_assoc _ first rest),
            )))

  -- Threads that call the `Log` of one source file with the messages of their lists, where the steps inside the
  -- calls come in any order, `localtime` gives a time, `getpid` the same number everywhere, and the file opens: the
  -- run returns, and once the thread that is inside a call has ended it, the text of the file is what it was with
  -- whole entries behind it: one for each of the calls of all threads that have begun, one after the other, each
  -- thread's in the order of its list. The calls that are not among them have not begun.
  pub interleave-AddedInOrder :
      (schedule : List ℕ) (messages : List (List Message)) (s : Logging sys.World)
      → let run = interleave schedule (start (map (map log_section) messages) s) in
        Returns
          (λ _ t.
            (h : List (ℕ × Message)) × (new : Bytes) × AddedInOrder h new
            × (laws.content t.world (file_name s.world)
                ≡ laws.content s.world (file_name s.world) ++ new)
            × ((i : ℕ)
                → (rest : List Message) × (own i h ++ rest ≡ program messages i)
                  × Left run i (map log_section rest)))
          (finished run)
  interleave-AddedInOrder schedule messages s =
      let run = interleave schedule (start (map (map log_section) messages) s) in
      let (sections, all, lists, held) =
        interleave-one_by_one schedule (map (map log_section) messages) s in
      let (h, image, programs) =
        Covers-Lifted log_section sections (program messages) (λ i. (lists i).0)
          (λ i. (lists i).1 ∙ program-map log_section messages i) in
      subst (Returns _) (ap (λ k. one_by_one k s) (sym image) ∙ all) (
        Returns-mono _ _ (one_by_one (map (in_history log_section) h) s)
          (one_by_one-AddedInOrder h s.world s)
          (λ _ t (new, added, text). (
            h,
            new,
            added,
            text,
            λ i.
                let (rest, same, left) = programs i in
                (rest, same, subst (Left run i) left (lists i).2),
          )))

-- ===== src/Log/Entries.antt =====
-- What `Log` of cpp/include/Log.h leaves in its file.
use codis_client.Prelude.{
  ◌≡◌, refl, ap, ◌∙◌, ◌⊎◌, inl, inr, true, false, Bool-cases, [], ◌∷◌, ◌++◌, append_assoc, some, ℤ,
  Bytes, codes,
}
use codis_client.Run.{Returns, Returns-result}
use codis_client.System.{System, SystemLaws, Tm}
use codis_client.Utils.{int2string}
use codis_client.Utils.Clock.{get_current_time, time_text}
use codis_client.Log.{Level, level_name, file_name, write_entry, log, entry}

module _ ⦃sys : System⦄ (laws : SystemLaws sys)
    (localtime_works : (now : ℤ) (w : sys.World)
      → (tm : Tm) × ((sys.localtime now w).0 ≡ some tm)) where
  -- The file holds this text.
  abbrev Holds : Bytes → Bytes → sys.World → Type 0
  Holds name text w = laws.content w name ≡ text

  write-Holds :
      (name text text' : Bytes) (w : sys.World)
      → Holds name text w
      → Holds name (text ++ text') (sys.write name text' w)
  write-Holds name text text' w h = laws.content-write name text' w ∙ ap (λ x. x ++ text') h

  write_entry-Holds :
      (name text : Bytes) (level : Level) (msg file : Bytes) (line : ℤ) (w : sys.World)
      → Holds name text w
      → Returns
          (λ _ t. (tm : Tm) × Holds name (text ++ entry level tm msg file line) t)
          (write_entry name level msg file line w)
  unfolding write_entry get_current_time
  write_entry-Holds name text level msg file line w h =
      let a = write-Holds name text (codes "[") w h in
      let b = write-Holds name _ (level_name level ++ codes "]") _ a in
      let c = write-Holds name _ (codes "[") _ b in
      let (now, v) = sys.time _ in
      let (tm, works) = localtime_works now v in
      let d = laws.content-localtime now v name ∙ (laws.content-time _ name ∙ c) in
      let e = write-Holds name _ (time_text tm ++ codes "]") _ d in
      let f =
        write-Holds name _ (codes "[" ++ (file ++ (codes ":" ++ (int2string line ++ codes "]")))) _
          e in
      let g = write-Holds name _ (codes "[" ++ (msg ++ (codes "]" ++ 10 ∷ []))) _ f in
      rw works (tm, g ∙ simp (append_assoc))

  -- Where `localtime` gives a time: `Log` returns on every path, and the text of its file is what it was if the
  -- file does not open, and otherwise what it was with one entry behind it, which has the level, a time, the
  -- place and the message.
  pub log-entry :
      (level : Level) (msg file : Bytes) (line : ℤ) (w : sys.World)
      → let name = file_name w in
        let opened = (sys.open_append name w).0 in
        Returns
          (λ _ t.
            ((opened ≡ false) × (laws.content t name ≡ laws.content w name))
            ⊎ ((opened ≡ true)
                × ((tm : Tm) × (laws.content t name
                      ≡ laws.content w name ++ entry level tm msg file line))))
          (log level msg file line w)
  unfolding log
  log-entry level msg file line w =
      let name = file_name w in
      let kept = laws.content-open_append name w name in
      elim (Bool-cases (sys.open_append name w).0) [
        | inl e ↦
            let (a, t, r, h) =
              Returns-result _ (write_entry name level msg file line _)
                (write_entry-Holds name _ level msg file line _ kept) in
            rw (e, r) (inr (refl, h))
        | inr e ↦ rw e (inl (refl, kept))
      ]

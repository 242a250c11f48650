-- ===== src/Message/Window.antt =====
-- The cache of a message's body is a window on the body that the server keeps.
use blitzmail.Common.{
  ℕ, ◌+◌, ◌-◌, ◌<◌, ◌≡◌, refl, sym, arith, Bytes, codes, Bool, true, false, not, ltb, take, drop,
  length, ◌==◌, List, [], ◌∷◌, ◌++◌, append-nil, append_assoc, Option, none, some, Bool-cases, inl,
  inr,
}
use blitzmail.Common.Decimal.{str}
use blitzmail.Errors.{ok}
use blitzmail.Link.Answer.{IsLine}
use blitzmail.Message.Served.{answers, commands, served, told, flag_after, facing, loaded}
use blitzmail.Message.Parts.{
  parts_before, window_before, parts_after, window_after, parts, window, shown,
}
use blitzmail.Blitz.Online.{online, says, gives, tell-online, hear-says, hear_block-gives}
use blitzmail.Message.{Summary, path, select, fetch, load_before, load_after, load_from}

module _ (w : ℕ) (hw : w < 10) (done : Bytes) (hd : IsLine done) where
  fetch_lem :
      (m : Summary) (selected : Bool) (offset n : ℕ) (block rest sent : Bytes) (warn : Bool)
      → fetch selected offset n
          (record m { session = online (answers w done selected block ++ rest) sent warn })
        ≡ (
          ok block,
          record m { session = online rest (sent ++ commands m selected offset n) (not (w == 0)) },
        )
  unfolding fetch select path
  fetch_lem m true offset n block rest sent warn =
      rw (tell-online, hear_block-gives w block done rest _ warn hw hd)
  fetch_lem m false offset n block rest sent warn =
      let mess = codes "MESS " ++ path m ++ codes "\n" in
      let text = codes "TEXT " ++ str offset ++ codes " " ++ str n ++ codes "\n" in
      rw
        (
          append_assoc (says w 10 done) (gives w block done) rest,
          tell-online,
          hear-says w 10 done (gives w block done ++ rest) (sent ++ mess) warn hw (omega arith) hd
              refl,
          sym (append_assoc sent mess text),
        )
        (rw (
          tell-online,
          hear_block-gives w block done rest ((sent ++ mess) ++ text) (not (w == 0)) hw hd,
        ))

  module _ (body : Bytes) where
    load_before_lem :
        (m : Summary) (offset : ℕ) (v : ℕ × Bytes) (rest sent : Bytes) (warn : Bool)
        → load_before offset v
            (facing w done body m false (parts_before offset v) rest sent warn (some v))
          ≡ (
            ok (window_before body offset v),
            loaded w m false (parts_before offset v) rest sent warn (window_before body offset v),
          )
    unfolding load_before path
    load_before_lem m offset v rest sent warn = elim (Bool-cases (ltb offset v.0)) [
      | inl e ↦
          (let block = take (v.0 - offset) (drop offset body) in
            rw (
              e,
              append-nil,
              append-nil,
              fetch_lem (record m { b_cache = some v }) false offset (v.0 - offset) block rest sent
                  warn,
            ))
      | inr e ↦ rw (e, append-nil)
    ]

    load_after_lem :
        (m : Summary) (selected : Bool) (offset endpos : ℕ) (v : ℕ × Bytes) (rest sent : Bytes)
        (warn : Bool)
        → load_after selected offset endpos v
            (facing w done body m selected (parts_after endpos v) rest sent warn (some v))
          ≡ (
            ok (window_after body offset endpos v),
            loaded w m selected
                (parts_after endpos v)
                rest
                sent
                warn
                (window_after body offset endpos v),
          )
    unfolding load_after path
    load_after_lem m selected offset endpos v rest sent warn =
        elim (Bool-cases (ltb (length v.1) endpos)) [
          | inl e ↦
              (let start = v.0 + length v.1 in
                let block = take (endpos - length v.1) (drop start body) in
                rw (
                  e,
                  append-nil,
                  append-nil,
                  fetch_lem (record m { b_cache = some v }) selected start (endpos - length v.1)
                      block rest sent warn,
                ))
          | inr e ↦ rw (e, append-nil)
        ]

    served_parts :
        (offset : ℕ) (v : ℕ × Bytes) (ps : List (ℕ × ℕ))
        → served w done body false (parts_before offset v ++ ps)
          ≡ served w done body false (parts_before offset v)
            ++ served w done body (ltb offset v.0) ps
    served_parts offset v ps = elim (Bool-cases (ltb offset v.0)) [
      | inl e ↦ rw (e, append-nil)
      | inr e ↦ rw e
    ]

    told_parts :
        (m : Summary) (offset : ℕ) (v : ℕ × Bytes) (ps : List (ℕ × ℕ))
        → told m false (parts_before offset v ++ ps)
          ≡ told m false (parts_before offset v) ++ told m (ltb offset v.0) ps
    told_parts m offset v ps = elim (Bool-cases (ltb offset v.0)) [
      | inl e ↦ rw (e, append-nil)
      | inr e ↦ rw e
    ]

    flag_parts :
        (offset : ℕ) (v : ℕ × Bytes) (ps : List (ℕ × ℕ)) (warn : Bool)
        → flag_after w (parts_before offset v ++ ps) warn
          ≡ flag_after w ps (flag_after w (parts_before offset v) warn)
    flag_parts offset v [] warn = elim (Bool-cases (ltb offset v.0)) [ inl e ↦ rw e | inr e ↦ rw e ]
    flag_parts offset v (p ∷ ps) warn = elim (Bool-cases (ltb offset v.0)) [
      | inl e ↦ rw e
      | inr e ↦ rw e
    ]

    pub load_from_lem :
        (m : Summary) (cache : Option (ℕ × Bytes)) (offset n : ℕ) (rest sent : Bytes) (warn : Bool)
        → load_from cache offset n
            (facing w done body m false (parts body cache offset n) rest sent warn cache)
          ≡ (
            ok (shown body cache offset n),
            loaded w m false
                (parts body cache offset n)
                rest
                sent
                warn
                (window body cache offset n),
          )
    unfolding load_from path
    load_from_lem m none offset n rest sent warn = rw (
      append-nil,
      append-nil,
      fetch_lem (record m { b_cache = none }) false offset n (take n (drop offset body)) rest sent
          warn,
    )
    load_from_lem m (some v) offset n rest sent warn =
        let v' = window_before body offset v in
        let endpos = offset - v'.0 + n in
        let first = parts_before offset v in
        let later = parts_after endpos v' in
        rw
          (
            served_parts offset v later,
            append_assoc (served w done body false first)
                (served w done body (ltb offset v.0) later) rest,
            load_before_lem m offset v (served w done body (ltb offset v.0) later ++ rest) sent
                warn,
          )
          (rw (
            load_after_lem m (ltb offset v.0) offset endpos v' rest (sent ++ told m false first)
                (flag_after w first warn),
            told_parts m offset v later,
            flag_parts offset v later warn,
            append_assoc sent (told m false first) (told m (ltb offset v.0) later),
          ))

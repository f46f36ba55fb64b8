-- ===== src/Utf8/Stream.antt =====
-- Wide characters on a stream of the host (read_utf8_wchar, write_utf8_wchar and unread_utf8_wchar of
-- src/hle/hle_wchar.cpp), and the handlers over them. The stream is a parameter.
use cross_shim.Base.{
  ℕ, zero, suc, ◌-◌, ◌^◌, ◌%◌, ◌⊎◌, inl, inr, not, Option, none, some, List, [], ◌∷◌, ◌++◌, length,
  ◌==◌, if◌then◌else◌,
}
use mathlib.Core.List.{reverse}
use cross_shim.Utf8.{
  Utf8DecodeStatus, ok, incomplete, invalid, utf8_expected_length_from_lead, encode_utf8,
  decode_utf8,
}

abbrev pub eio : ℕ
eio = 5

abbrev pub ebadf : ℕ
ebadf = 9

abbrev pub eilseq : ℕ
eilseq = 84

-- What the code uses of a FILE. `fgetc` is `none` at EOF, and `ferror` then tells the errno of a
-- stream in error; `fwrite` returns the count and errno, `ungetc` errno if it fails.
pub record HostFile (F : Type 0) : Type 0 where
  pub fgetc : F → Option ℕ × F
  pub ferror : F → Option ℕ
  pub fwrite : F → List ℕ → F × ℕ × ℕ
  pub ungetc : F → ℕ → F × Option ℕ

-- The stream, the character or WEOF, and out_errno.
pub record WideResult (F : Type 0) : Type 0 where
  pub file : F
  pub result : Option ℕ
  pub out_errno : ℕ

-- A character as wint_t.
unfoldable pub x0_of : Option ℕ → ℕ
x0_of none = 2 ^ 32 - 1
x0_of (some wc) = wc

module _ {F : Type 0} where
  unfoldable pub weof : F → ℕ → WideResult F
  weof f e = record { file = f; result = none; out_errno = e }

  unfoldable pub wide : F → ℕ → WideResult F
  wide f wc = record { file = f; result = some wc; out_errno = 0 }

  -- The end of read_utf8_wchar, with all bytes in hand.
  unfoldable pub decoded : F → ℕ → Utf8DecodeStatus → WideResult F
  unfolding weof wide
  decoded f expected (ok wc consumed) = if consumed == expected then wide f wc else weof f eilseq
  decoded f expected incomplete = weof f eilseq
  decoded f expected invalid = weof f eilseq

  unfoldable pub decode_read : ℕ → F × (ℕ ⊎ List ℕ) → WideResult F
  unfolding weof decoded
  decode_read expected (f, inl e) = weof f e
  decode_read expected (f, inr bytes) = decoded f expected (decode_utf8 bytes)

  module _ (h : HostFile F) where
    -- The loop of read_utf8_wchar: the stream, and the bytes so far or out_errno.
    unfoldable pub read_more : ℕ → F → List ℕ → F × (ℕ ⊎ List ℕ)
    read_more zero f bytes = (f, inr bytes)
    read_more (suc n) f bytes =
        let (next, f') = h.fgetc f in
        elim next [
          | none ↦ (f', inl (elim (h.ferror f') [ none ↦ eilseq | some e ↦ e ]))
          | some b ↦ read_more n f' (bytes ++ (b ∷ []))
        ]

    unfoldable pub read_rest : F → ℕ → ℕ → WideResult F
    unfolding read_more decode_read
    read_rest f first expected = decode_read expected (read_more (expected - 1) f (first ∷ []))

    unfoldable pub read_utf8_wchar : F → WideResult F
    unfolding read_rest weof
    read_utf8_wchar f =
        let (first, f') = h.fgetc f in
        elim first [
          | none ↦ weof f' (elim (h.ferror f') [ none ↦ 0 | some e ↦ e ])
          | some b ↦ elim (utf8_expected_length_from_lead b) [
            | none ↦ weof f' eilseq
            | some expected ↦ read_rest f' b expected
          ]
        ]

    unfoldable pub write_utf8_wchar : F → ℕ → WideResult F
    unfolding weof wide
    write_utf8_wchar f wc = elim (encode_utf8 wc) [
      | none ↦ weof f eilseq
      | some bytes ↦
          let (f', written, errno) = h.fwrite f bytes in
          if not (written == length bytes)
          then weof f' (if errno == 0 then eio else errno)
          else wide f' wc
    ]

    -- The loop of unread_utf8_wchar, over the bytes from the last one on.
    unfoldable pub unread_bytes : F → ℕ → List ℕ → WideResult F
    unfolding weof wide
    unread_bytes f wc [] = wide f wc
    unread_bytes f wc (b ∷ bytes) =
        let (f', failed) = h.ungetc f b in
        elim failed [
          | some e ↦ weof f' (if e == 0 then eio else e)
          | none ↦ unread_bytes f' wc bytes
        ]

    unfoldable pub unread_utf8_wchar : F → ℕ → WideResult F
    unfolding unread_bytes weof
    unread_utf8_wchar f wc = elim (encode_utf8 wc) [
      | none ↦ weof f eilseq
      | some bytes ↦ unread_bytes f wc (reverse bytes)
    ]

  -- The handlers: what hle_resolve_guest_file returned is an argument. X0 and errno after the call.
  unfoldable pub no_file : Option F × ℕ × ℕ
  no_file = (none, 2 ^ 32 - 1, ebadf)

  -- ungetwc, fputwc, putwc: errno is set at each WEOF.
  unfoldable pub reported : ℕ → WideResult F → Option F × ℕ × ℕ
  unfolding x0_of
  reported errno r =
      (some r.file, x0_of r.result, elim r.result [ none ↦ r.out_errno | some wc ↦ errno ])

  -- getwc and fgetwc: only if it is not 0.
  unfoldable pub reported_some : ℕ → WideResult F → Option F × ℕ × ℕ
  unfolding x0_of
  reported_some errno r = (
    some r.file,
    x0_of r.result,
    elim r.result [ none ↦ if r.out_errno == 0 then errno else r.out_errno | some wc ↦ errno ],
  )

  module _ (h : HostFile F) where
    unfoldable pub getwc : Option F → ℕ → Option F × ℕ × ℕ
    unfolding no_file reported_some read_utf8_wchar
    getwc none errno = no_file
    getwc (some f) errno = reported_some errno (read_utf8_wchar h f)

    unfoldable pub ungetwc : Option F → ℕ → ℕ → Option F × ℕ × ℕ
    unfolding no_file reported unread_utf8_wchar
    ungetwc none x0 errno = no_file
    ungetwc (some f) x0 errno = reported errno (unread_utf8_wchar h f (x0 % 2 ^ 32))

    -- After a write `sync` is hle_sync_stream_after_write.
    unfoldable pub synced : (F → F) → WideResult F → WideResult F
    synced sync r = elim r.result [ none ↦ r | some wc ↦ record r { file = sync r.file } ]

    unfoldable pub fputwc : (F → F) → Option F → ℕ → ℕ → Option F × ℕ × ℕ
    unfolding no_file reported synced write_utf8_wchar
    fputwc sync none x0 errno = no_file
    fputwc sync (some f) x0 errno =
        reported errno (synced sync (write_utf8_wchar h f (x0 % 2 ^ 32)))

-- ===== src/Parser/Abi.antt =====
-- The readers of src/parser_impl.cpp over libcmt: each takes from the buffer, throws on a code that
-- is not 0, and writes a field.
use machine_asset_tools.Prelude.{
  ℕ, ◌+◌, ◌*◌, ◌/◌, ◌%◌, ◌^◌, ℤ, pos, negsuc, zero, suc, Bool, true, false, if◌then◌else◌, ltb,
  String, ok, err, Throws, pure, gets, ◌>>=◌, ◌>>◌, modify, throw_if,
}
use machine_asset_tools.Parser.Types.{Bytes, Span, Fields, InputType, ParserInput}
use machine_asset_tools.Parser.Cmt.{Buf, Cmt, bytes_at, e_nobufs}

-- A decoder's buffer and the fields that it fills.
pub record Reader : Type 0 where
  pub buf : Buf
  pub fields : Fields

-- A field's assignment.
abbrev pub Put : Type 0 → Type 0
Put A = A → Fields → Fields

-- `err != 0`
abbrev pub failed : ℤ → Bool
failed (pos zero) = false
failed (pos (suc n)) = true
failed (negsuc n) = true

abbrev pub take_to : {A : Type 0} → Put A → A → Buf → Reader → Reader
take_to put a b s = record { buf = b; fields = put a s.fields }

module _ (m : Cmt) where
  -- The bytes of a `uint32_t`, lowest first, given to CMT_ABI_FUNSEL in the other order.
  unfoldable pub convert_to_cmt_funsel : ℕ → ℕ
  convert_to_cmt_funsel f =
      m.cmt_abi_funsel (f / 16777216 % 256) (f / 65536 % 256) (f / 256 % 256) (f % 256)

  unfoldable pub cma_abi_get_bytes_packed : Put Span → Throws Reader (Unit {0})
  cma_abi_get_bytes_packed put = do
    b ← gets (λ s. s.buf)
    throw_if (ltb b.end b.begin) "Invalid buffer pointer range" e_nobufs
    modify (take_to put (record { length = m.cmt_buf_length b; start = b.begin }) b)

  -- `n_bytes` from the start of the buffer.
  unfoldable pub cma_abi_get_bytes : ℕ → Throws Reader Bytes
  cma_abi_get_bytes n_bytes = do
    b ← gets (λ s. s.buf)
    throw_if (ltb (m.cmt_buf_length b) n_bytes) "Invalid buffer length" e_nobufs
    pure (bytes_at m.byte b.begin n_bytes)

  -- The code of the split is not looked at.
  unfoldable pub cma_abi_get_address_packed : Put Bytes → Throws Reader (Unit {0})
  unfolding cma_abi_get_bytes
  cma_abi_get_address_packed put = do
    b ← gets (λ s. s.buf)
    throw_if (ltb (m.cmt_buf_length b) 20) "Invalid buffer length" e_nobufs
    a ← cma_abi_get_bytes 20
    modify (take_to put a (m.cmt_buf_split b 20).2)

  -- The bytes of a list of 256-bit numbers; the number of bytes is computed on 64 bits.
  unfoldable pub cma_abi_peek_uint256_list_d : Buf → Buf → ℤ × Buf
  cma_abi_peek_uint256_list_d start offset_buf =
      let (code, offset, _) = m.cmt_abi_get_uint offset_buf in
      if failed code
      then (code, record { begin = 0; end = 0 })
      else (let (code', size, it) =
            m.cmt_abi_get_uint
              (record { begin = (start.begin + offset) % 2 ^ 64; end = start.end }) in
          if failed code'
          then (code', record { begin = 0; end = 0 })
          else if ltb (m.cmt_buf_length it) (size * 32 % 2 ^ 64)
          then (e_nobufs, record { begin = 0; end = 0 })
          else (let (code'', bytes, _) = m.cmt_buf_split it (size * 32 % 2 ^ 64) in
              (code'', bytes)))

  -- With the check of its code.
  unfoldable pub cma_abi_get_uint256_list_d :
      Buf → Buf → String → Put Span → Throws Reader (Unit {0})
  unfolding cma_abi_peek_uint256_list_d
  cma_abi_get_uint256_list_d start offset_buf message put =
      let (code, bytes) = cma_abi_peek_uint256_list_d start offset_buf in
      throw_if (failed code) message code
      >> modify (λ s. record s {
        fields =
            put (record { length = m.cmt_buf_length bytes / 32; start = bytes.begin }) s.fields;
      })

  -- libcmt's readers with the check of the code that follows each call.
  unfoldable pub get_uint256 : String → Put Bytes → Throws Reader (Unit {0})
  get_uint256 message put = do
    (code, v, rest) ← gets (λ s. m.cmt_abi_get_uint256 s.buf)
    throw_if (failed code) message code
    modify (take_to put v rest)

  unfoldable pub get_address : String → Put Bytes → Throws Reader (Unit {0})
  get_address message put = do
    (code, v, rest) ← gets (λ s. m.cmt_abi_get_address s.buf)
    throw_if (failed code) message code
    modify (take_to put v rest)

  unfoldable pub get_bytes_s : String → Throws Reader Buf
  get_bytes_s message = do
    (code, offset, rest) ← gets (λ s. m.cmt_abi_get_bytes_s s.buf)
    throw_if (failed code) message code
    modify (λ s. record s { buf = rest })
    pure offset

  unfoldable pub get_bytes_d : Buf → Buf → String → Put Span → Throws Reader (Unit {0})
  get_bytes_d frame offset message put = do
    (code, bytes) ← pure (m.cmt_abi_get_bytes_d frame offset)
    throw_if (failed code) message code
    modify (λ s. record s { fields = put bytes s.fields })

  unfoldable pub mark_frame : Throws Reader Buf
  mark_frame = do
    (code, frame) ← gets (λ s. m.cmt_abi_mark_frame s.buf)
    throw_if (failed code) "Error marking frame" code
    pure frame

  unfoldable pub check_funsel : ℕ → Throws Reader (Unit {0})
  unfolding convert_to_cmt_funsel
  check_funsel selector = do
    (code, rest) ← gets (λ s. m.cmt_abi_check_funsel s.buf (convert_to_cmt_funsel selector))
    throw_if (failed code) "Invalid funsel" code
    modify (λ s. record s { buf = rest })

  -- `cmt_buf_init(buf_payload, cmt_buf_length(buf), buf->begin)`: what follows reads this buffer.
  unfoldable pub rest_as_payload : Throws Reader (Unit {0})
  rest_as_payload =
      modify (λ s. record s { buf = m.cmt_buf_init (m.cmt_buf_length s.buf) s.buf.begin })

  -- A decoder: a buffer over the payload, the steps, and at the end the type.
  unfoldable pub decoder :
      InputType → Throws Reader (Unit {0}) → Span → Throws ParserInput (Unit {0})
  decoder t steps payload p =
      let (r, s) =
        steps (record { buf = m.cmt_buf_init payload.length payload.start; fields = p.fields }) in
      elim r [
        | ok _ ↦ (ok tt, record { type = t; fields = s.fields })
        | err message code ↦ (err message code, record p { fields = s.fields })
      ]

-- Assignments to fields.
abbrev pub put_sender : Put Bytes
put_sender v f = record f { sender = v }

abbrev pub put_receiver : Put Bytes
put_receiver v f = record f { receiver = v }

abbrev pub put_token : Put Bytes
put_token v f = record f { token = v }

abbrev pub put_token_id : Put Bytes
put_token_id v f = record f { token_id = v }

abbrev pub put_amount : Put Bytes
put_amount v f = record f { amount = v }

abbrev pub put_token_ids : Put Span
put_token_ids v f = record f { token_ids = v }

abbrev pub put_amounts : Put Span
put_amounts v f = record f { amounts = v }

abbrev pub put_base : Put Span
put_base v f = record f { base_layer_data = v }

abbrev pub put_exec : Put Span
put_exec v f = record f { exec_layer_data = v }

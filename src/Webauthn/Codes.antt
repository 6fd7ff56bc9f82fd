-- ===== src/Webauthn/Codes.antt =====
-- The constants of linux-hello/src/webauthn/ctaphid.py.
use linux_hello.Prelude.{ℕ}

abbrev pub ctaphid_ping : ℕ
ctaphid_ping = 0x01

abbrev pub ctaphid_msg : ℕ
ctaphid_msg = 0x03

abbrev pub ctaphid_lock : ℕ
ctaphid_lock = 0x04

abbrev pub ctaphid_init : ℕ
ctaphid_init = 0x06

abbrev pub ctaphid_wink : ℕ
ctaphid_wink = 0x08

abbrev pub ctaphid_cbor : ℕ
ctaphid_cbor = 0x10

abbrev pub ctaphid_cancel : ℕ
ctaphid_cancel = 0x11

abbrev pub ctaphid_keepalive : ℕ
ctaphid_keepalive = 0x3B

abbrev pub ctaphid_error : ℕ
ctaphid_error = 0x3F

abbrev pub err_invalid_cmd : ℕ
err_invalid_cmd = 0x01

abbrev pub err_invalid_len : ℕ
err_invalid_len = 0x03

abbrev pub err_invalid_seq : ℕ
err_invalid_seq = 0x04

abbrev pub err_channel_busy : ℕ
err_channel_busy = 0x06

abbrev pub err_invalid_channel : ℕ
err_invalid_channel = 0x0B

abbrev pub status_upneeded : ℕ
status_upneeded = 0x02

-- CAPABILITY_CBOR | CAPABILITY_NMSG
abbrev pub capabilities : ℕ
capabilities = 0x0C

abbrev pub ctaphid_protocol_version : ℕ
ctaphid_protocol_version = 2

abbrev pub cid_broadcast : ℕ
cid_broadcast = 0xFFFFFFFF

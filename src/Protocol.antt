-- ===== src/Protocol.antt =====
-- include/e4/proto.h, include/e4/error.h, include/e4/options.h: sizes, result codes and options.
use libe.Common.{ℕ, ◌*◌, ◌+◌}
use libe.Common.Int.{ℤ, pos, negsuc}

abbrev pub timestamp_len : ℕ
timestamp_len = 8

abbrev pub id_len : ℕ
id_len = 16

abbrev pub key_len : ℕ
key_len = 32

abbrev pub topichash_len : ℕ
topichash_len = 16

abbrev pub ctrltopic_len : ℕ
ctrltopic_len = 2 * id_len + 3

abbrev tag_len : ℕ
tag_len = 16

abbrev pub msghdr_len : ℕ
msghdr_len = tag_len + timestamp_len

abbrev pub result_ok : ℤ
result_ok = pos 0

abbrev pub result_ok_control : ℤ
result_ok_control = negsuc 0

abbrev pub error_internal : ℤ
error_internal = negsuc 99

abbrev pub error_invalid_tag : ℤ
error_invalid_tag = negsuc 100

abbrev pub error_timestamp_in_future : ℤ
error_timestamp_in_future = negsuc 101

abbrev pub error_timestamp_too_old : ℤ
error_timestamp_too_old = negsuc 102

abbrev pub error_ciphertext_too_short : ℤ
error_ciphertext_too_short = negsuc 103

abbrev pub error_topickey_missing : ℤ
error_topickey_missing = negsuc 104

abbrev pub error_invalid_command : ℤ
error_invalid_command = negsuc 106

abbrev pub error_persistence_error : ℤ
error_persistence_error = negsuc 107

abbrev pub error_devicepk_missing : ℤ
error_devicepk_missing = negsuc 108

abbrev pub error_pk_sigverif_failed : ℤ
error_pk_sigverif_failed = negsuc 109

abbrev pub error_parameter_overflow : ℤ
error_parameter_overflow = negsuc 110

abbrev pub error_parameter_invalid : ℤ
error_parameter_invalid = negsuc 111

abbrev pub pk_eddsa_privkey_len : ℕ
pk_eddsa_privkey_len = 64

abbrev pub pk_eddsa_pubkey_len : ℕ
pk_eddsa_pubkey_len = 32

abbrev pub pk_eddsa_sig_len : ℕ
pk_eddsa_sig_len = 64

abbrev pub pk_topicmsghdr_len : ℕ
pk_topicmsghdr_len = tag_len + timestamp_len + id_len

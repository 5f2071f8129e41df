-- ===== src/Proto/Names.antt =====
-- src/proto/proto_ta.h: the texts and numbers of the protocol. A text is the list of its bytes.
use Prim.Native.Char.{code}
use Prim.Native.String.{String}
use tpaf.Prelude.{ℕ, [], ◌∷◌}
use tpaf.Prelude.Int.{ℤ, pos}
use tpaf.Clib.Str.{Str}

unfoldable pub bytes : String → Str
bytes String.[] = []
bytes (String.◌∷◌ c s) = code c ∷ bytes s

abbrev pub version : ℤ
version = pos 2

abbrev pub num_mandatory_fields : ℕ
num_mandatory_fields = 3

unfoldable pub msg_type_req : Str
unfolding bytes
msg_type_req = bytes "request"

unfoldable pub msg_type_accept : Str
unfolding bytes
msg_type_accept = bytes "accept"

unfoldable pub msg_type_notify : Str
unfolding bytes
msg_type_notify = bytes "notify"

unfoldable pub msg_type_complete : Str
unfolding bytes
msg_type_complete = bytes "complete"

unfoldable pub msg_type_fail : Str
unfolding bytes
msg_type_fail = bytes "fail"

unfoldable pub cmd_hello : Str
unfolding bytes
cmd_hello = bytes "hello"

unfoldable pub cmd_subscribe : Str
unfolding bytes
cmd_subscribe = bytes "subscribe"

unfoldable pub cmd_unsubscribe : Str
unfolding bytes
cmd_unsubscribe = bytes "unsubscribe"

unfoldable pub cmd_publish : Str
unfolding bytes
cmd_publish = bytes "publish"

unfoldable pub cmd_unpublish : Str
unfolding bytes
cmd_unpublish = bytes "unpublish"

unfoldable pub cmd_ping : Str
unfolding bytes
cmd_ping = bytes "ping"

unfoldable pub cmd_subscriptions : Str
unfolding bytes
cmd_subscriptions = bytes "subscriptions"

unfoldable pub cmd_services : Str
unfolding bytes
cmd_services = bytes "services"

unfoldable pub cmd_clients : Str
unfolding bytes
cmd_clients = bytes "clients"

unfoldable pub field_ta_cmd : Str
unfolding bytes
field_ta_cmd = bytes "ta-cmd"

unfoldable pub field_ta_id : Str
unfolding bytes
field_ta_id = bytes "ta-id"

unfoldable pub field_msg_type : Str
unfolding bytes
field_msg_type = bytes "msg-type"

unfoldable pub field_fail_reason : Str
unfolding bytes
field_fail_reason = bytes "fail-reason"

unfoldable pub field_proto_min_version : Str
unfolding bytes
field_proto_min_version = bytes "protocol-minimum-version"

unfoldable pub field_proto_max_version : Str
unfolding bytes
field_proto_max_version = bytes "protocol-maximum-version"

unfoldable pub field_proto_version : Str
unfolding bytes
field_proto_version = bytes "protocol-version"

unfoldable pub field_service_id : Str
unfolding bytes
field_service_id = bytes "service-id"

unfoldable pub field_service_props : Str
unfolding bytes
field_service_props = bytes "service-props"

unfoldable pub field_generation : Str
unfolding bytes
field_generation = bytes "generation"

unfoldable pub field_ttl : Str
unfolding bytes
field_ttl = bytes "ttl"

unfoldable pub field_orphan_since : Str
unfolding bytes
field_orphan_since = bytes "orphan-since"

unfoldable pub field_subscription_id : Str
unfolding bytes
field_subscription_id = bytes "subscription-id"

unfoldable pub field_filter : Str
unfolding bytes
field_filter = bytes "filter"

unfoldable pub field_client_id : Str
unfolding bytes
field_client_id = bytes "client-id"

unfoldable pub field_client_addr : Str
unfolding bytes
field_client_addr = bytes "client-address"

unfoldable pub field_time : Str
unfolding bytes
field_time = bytes "time"

unfoldable pub field_match_type : Str
unfolding bytes
field_match_type = bytes "match-type"

unfoldable pub match_type_appeared : Str
unfolding bytes
match_type_appeared = bytes "appeared"

unfoldable pub match_type_modified : Str
unfolding bytes
match_type_modified = bytes "modified"

unfoldable pub match_type_disappeared : Str
unfolding bytes
match_type_disappeared = bytes "disappeared"

unfoldable pub fail_reason_no_hello : Str
unfolding bytes
fail_reason_no_hello = bytes "no-hello"

unfoldable pub fail_reason_client_id_exists : Str
unfolding bytes
fail_reason_client_id_exists = bytes "client-id-exists"

unfoldable pub fail_reason_invalid_filter_syntax : Str
unfolding bytes
fail_reason_invalid_filter_syntax = bytes "invalid-filter-syntax"

unfoldable pub fail_reason_subscription_id_exists : Str
unfolding bytes
fail_reason_subscription_id_exists = bytes "subscription-id-exists"

unfoldable pub fail_reason_non_existent_subscription_id : Str
unfolding bytes
fail_reason_non_existent_subscription_id = bytes "non-existent-subscription-id"

unfoldable pub fail_reason_non_existent_service_id : Str
unfolding bytes
fail_reason_non_existent_service_id = bytes "non-existent-service-id"

unfoldable pub fail_reason_unsupported_protocol_version : Str
unfolding bytes
fail_reason_unsupported_protocol_version = bytes "unsupported-protocol-version"

unfoldable pub fail_reason_permission_denied : Str
unfolding bytes
fail_reason_permission_denied = bytes "permission-denied"

unfoldable pub fail_reason_old_generation : Str
unfolding bytes
fail_reason_old_generation = bytes "old-generation"

unfoldable pub fail_reason_same_generation_but_different : Str
unfolding bytes
fail_reason_same_generation_but_different = bytes "same-generation-but-different"

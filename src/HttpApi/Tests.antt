-- ===== src/HttpApi/Tests.antt =====
-- The theorems at services that count their calls. A body is its own JSON.
use personal_vpn.Prelude.{
  ℕ, suc, ◌≡◌, refl, Bool, true, false, [], ◌∷◌, none, some, ok, err, Str, Str-discrete, text,
  length, replicate, ℤ,
}
use personal_vpn.Encoding.Space.{fields, fields_from, lower_ascii, lower_from, has_prefix}
use personal_vpn.Control.{RegisterDeviceRequest}
use personal_vpn.Agent.Worker.{Delivery}
use personal_vpn.HttpApi.{Request, Decoded, malformed, single, decode_json, bearer_token}
use personal_vpn.HttpApi.Auth.{AuthService, Credentials}
use personal_vpn.HttpApi.Devices.{
  DeviceService, list_for, register_for, revoke_for, configuration_for, list, register, revoke,
  configure, conflict, not_found,
}
use personal_vpn.HttpApi.Gateway.{
  GatewayDeliveryService, RetryRequest, no_delivery, gateway_identity, contains_separator,
  claim_for, ack_for, retry_for, claim, ack, retry,
}
use personal_vpn.HttpApi.Access.{IsGuarded, IsIdentified, handlers-IsGuarded, handlers-IsIdentified}
use personal_vpn.HttpApi.Answers.{undecodable_answers_twice}

abbrev request : Request
request = record {
  authorization = text "Bearer t1";
  content_type = text "application/json";
  idempotency_key = replicate 16 b'k';
  body = text "x";
  device_id = text "d";
  gateway_id = text "gw";
  delivery_id = text "1";
  peer = some (text "gw");
}

splits : fields (text "Bearer t1") ≡ text "Bearer" ∷ text "t1" ∷ []
unfolding fields fields_from
splits = refl

reads : bearer_token (text "Bearer t1") ≡ some (text "t1")
unfolding bearer_token fields fields_from lower_ascii lower_from Str-discrete
reads = refl

abbrev credentials : Str → Decoded Credentials
credentials s = single (record { email = s; password = s })

abbrev token : Str → Decoded Str
token s = single s

abbrev auth_service : AuthService ℕ Bool Str
auth_service = record {
  is_conflict = λ e. e;
  register = λ n email password. (suc n, err true);
  login = λ n email password. (suc n, ok (text "pair"));
  refresh = λ n t. (suc n, err false);
  logout = λ n user. suc n;
  authenticate_access = λ n t. some (text "alice");
}

abbrev device_service : DeviceService ℕ
device_service = record {
  authenticate_access = λ n t. some (text "alice");
  list_devices = λ n owner. ok [];
  register_device = λ n owner request. (suc n, err conflict);
  request_revocation = λ n owner device_id. (suc n, ok tt);
  create_tunnel_configuration = λ n owner device_id region_id key. (suc n, err not_found);
  list_regions = λ n. ok [];
}

abbrev device_request : Str → Decoded RegisterDeviceRequest
device_request s = single (record { name = s; platform = s; public_key = s })

handlers-IsGuarded_example :
    IsGuarded device_service
      (λ s r. list_for device_service s)
      0
      request
      (list device_service 0 request)
    × IsGuarded device_service
        (register_for device_service device_request)
        0
        request
        (register device_service device_request 0 request)
    × IsGuarded device_service
        (revoke_for device_service)
        0
        request
        (revoke device_service 0 request)
    × IsGuarded device_service
        (configuration_for device_service token)
        0
        request
        (configure device_service token 0 request)
handlers-IsGuarded_example = handlers-IsGuarded device_service device_request token 0 request

abbrev gateway_service : GatewayDeliveryService ℕ
gateway_service = record {
  claim_snapshot = λ n gateway_id. (suc n, err no_delivery);
  ack_snapshot_delivery = λ n gateway_id delivery_id generation. (suc n, true);
  retry_snapshot_delivery = λ n gateway_id delivery_id retry_at reason. (suc n, true);
}

abbrev generation : Str → Decoded ℤ
generation s = malformed

abbrev retry_request : Str → Decoded RetryRequest
retry_request s = malformed

handlers-IsIdentified_example :
    IsIdentified gateway_service
      (λ s r. claim_for gateway_service s)
      0
      request
      (claim gateway_service 0 request)
    × IsIdentified gateway_service
        (ack_for gateway_service generation)
        0
        request
        (ack gateway_service generation 0 request)
    × IsIdentified gateway_service
        (retry_for gateway_service retry_request)
        0
        request
        (retry gateway_service retry_request 0 request)
handlers-IsIdentified_example =
    handlers-IsIdentified gateway_service generation retry_request 0 request

names_gateway : gateway_identity request ≡ some (text "gw")
unfolding gateway_identity contains_separator Str-discrete
names_gateway = refl

no_generation : (decode_json {V = Delivery} generation request).1 ≡ none
unfolding decode_json has_prefix lower_ascii lower_from
no_generation = refl

no_retry : (decode_json {V = Delivery} retry_request request).1 ≡ none
unfolding decode_json has_prefix lower_ascii lower_from
no_retry = refl

undecodable_answers_twice_example :
    (length (ack gateway_service generation 0 request).1 ≡ 2)
    × (length (retry gateway_service retry_request 0 request).1 ≡ 2)
undecodable_answers_twice_example =
    undecodable_answers_twice gateway_service generation retry_request 0 request (text "gw")
      names_gateway refl no_generation no_retry

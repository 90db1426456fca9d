-- ===== src/Http/Counting.antt =====
-- What GET /metrics shows of requests for application keys (src/server.rs, `handle_app_key`;
-- src/metrics.rs, `render`).
use g_kms.Prelude.{ℕ, Bool, true, false, ◌==◌, Bytes, bytes_eq, codes}
use g_kms.Metrics.Registry.{Metrics}
use g_kms.Http.{Bucket}

-- The two buckets that are the service's own fault, one of which goes away by itself.
abbrev pub is_ours : Bucket → Bool
is_ours Bucket.issued = false
is_ours Bucket.unauthorized = false
is_ours Bucket.bad_request = false
is_ours Bucket.not_ready = true
is_ours Bucket.error = true

-- The series of a bucket, and its counter.
abbrev pub series_of : Bucket → Bytes
series_of Bucket.issued = codes "kms_appkey_requests_total{result=\"ok\"}"
series_of Bucket.unauthorized = codes "kms_appkey_requests_total{result=\"unauthorized\"}"
series_of Bucket.bad_request = codes "kms_appkey_requests_total{result=\"bad_request\"}"
series_of Bucket.not_ready = codes "kms_appkey_requests_total{result=\"not_ready\"}"
series_of Bucket.error = codes "kms_appkey_requests_total{result=\"error\"}"

abbrev pub count_of : Bucket → Metrics → ℕ
count_of Bucket.issued m = m.appkey_ok
count_of Bucket.unauthorized m = m.appkey_unauthorized
count_of Bucket.bad_request m = m.appkey_bad_request
count_of Bucket.not_ready m = m.appkey_not_ready
count_of Bucket.error m = m.appkey_error

abbrev rank : Bucket → ℕ
rank Bucket.issued = 0
rank Bucket.unauthorized = 1
rank Bucket.bad_request = 2
rank Bucket.not_ready = 3
rank Bucket.error = 4

abbrev pub beq_bucket : Bucket → Bucket → Bool
beq_bucket a b = rank a == rank b

-- ===== src/Lib.antt =====
-- The core of the backend of a network of parcel lockers (postamats): booking a cell, paying for it,
-- putting a parcel in and collecting it, and what staff and the background workers do with a parcel
-- that nobody collects.
--
-- The program's parts, and the files that model them:
--
--   Settings             backend/app/core/config.py: the settings that the modelled code reads, and
--                        instants and durations.
--   Common/Errors        backend/app/core/errors.py: ErrorCode and AppError, and the exception monad.
--   Catalog              backend/app/modules/catalog/models.py. Catalog/Opening is the part of
--                        service.py on opening hours (_slot_for, is_open_at, next_opening_after,
--                        storage_expiry), Catalog/Cells the part on cells (_usable_cells,
--                        cell_ids_by_type, free_cell_ids, cell_numbers).
--   Booking              backend/app/modules/booking/models.py. Booking/Machine is the table
--                        ALLOWED_TRANSITIONS of service.py with can_transition and
--                        assert_transition, Booking/Codes is codes.py (issue_code, code_expiry,
--                        find_code), Booking/Service the operations of service.py. The names
--                        differ where a name was taken: fail_payment is payment_failed,
--                        flag_removal is to_remove, move is _move.
--   Allocation           _held_cell_ids and create_booking of the same service.py, which also read
--                        the cells.
--   Payments             backend/app/modules/payments/models.py and provider.py; Payments/Service is
--                        service.py (start_payment, cancel_payment, settle).
--   Custody              backend/app/modules/custody/models.py; Custody/Service is service.py
--                        (file_removal, hand_over, dispose).
--   Audit, Notify        the rows of the audit log and of notifications that these operations write.
--   Workers              backend/app/workers: Workers/Holds is holds.py (release_expired_holds),
--                        Workers/Overdue is overdue.py (run_escalation).
--   Identity             the refresh tokens of backend/app/modules/identity/service.py, with the rows
--                        of models.py that they read (issue_token_pair,
--                        _load_usable_refresh_token as load_usable, _assert_subject_usable,
--                        rotate_refresh_token, revoke_refresh_token, revoke_client_session).
--                        Identity/Otp is the login code (issue_otp, verify_otp), Identity/PushTokens
--                        the device tokens (register_push_token and the two revocations), and
--                        Identity/SignIn has get_or_create_client with verify_otp and logout of
--                        backend/app/api/mobile/auth.py (as sign_in and log_out).
--   KeyValue             backend/app/core/kvstore.py, the values with a time to live.
--   RateLimit            backend/app/core/ratelimit.py (rate_limit).
--   Idempotency          backend/app/core/idempotency.py (_owner, the middleware's dispatch).
--   Mobile               backend/app/api/mobile/bookings.py: Mobile/Create is its create_booking,
--                        Mobile has cancel_booking and extend_hold (as extend_own_hold), Mobile/Codes
--                        _guard_resend, rotate_deposit_code, rotate_pickup_code and transfer_pickup.
--                        Mobile/Payments is payments.py beside it, and webhooks/payments.py.
--   Admin                backend/app/api/admin/cells.py: Admin/Cells has create_cell and update_cell,
--                        Admin/Bulk bulk_create_cells, and Admin/States the blocking, maintenance and
--                        remote opening of a cell and _status, which the monitor shows.
--                        Admin/Custody has the routes of custody.py that write, Admin/Tariffs is
--                        replace_tariffs of tariffs.py, and Admin/Clients the blocking of clients.py.
--   Locker               locker_uart.py: the frame that opens a lock, and the passive listener.
--   Staff                require_client, require_admin and require_permission of
--                        backend/app/core/deps.py, and login of api/admin/auth.py (as log_in);
--                        Staff/Users is modules/staff/service.py with the routes of
--                        api/admin/users.py.
--   Notify/Delivery      _send_sms, _devices_for, _send_push, deliver_pending and record_delivery of
--                        backend/app/modules/notify/service.py.
--   Pages                backend/app/core/pagination.py (page_meta, paginate_page, paginate_cursor).
--   Store                the tables as one record, with operations of the bookings, payments and
--                        removals and the mobile routes on a booking as steps on it, and the run that
--                        releases expired holds as a sequence of them. Store/Api is one state for all
--                        writing routes under Mobile and Admin/Custody.
--   Tests                rows and runs at concrete inputs.
--
-- How they interact: the booking service is called by the allocation, by the settling of payments,
-- by the custody procedure, by the routes of the mobile API and by both workers; each of them
-- writes the changed booking back to its table. The booking service reads the opening hours of the
-- catalogue for the end of storage, the escalation reads them for its deadlines, and the allocation
-- reads the cells, which the admin API writes. Login codes, the cooling-off window of the rotations
-- and the counters of the rate limits are entries of the key-value store, which no session rolls
-- back: a route that writes both takes and returns it beside the tables.
--
-- How state is modelled: a row is a record, a table a list of rows in the order of their insertion,
-- and a lookup by primary key the first row with the key. An operation that writes one row returns
-- the changed row, and one that writes several tables returns a changed Store. An AppError is a
-- value of Result; its message and its details are left out. An operation that raises leaves the
-- tables as they were, since its session is closed without a commit; an error after the commit is
-- the answer beside the written tables. A row that breaks a constraint of its table, such as the
-- unique id of the provider on a payment, is an error of the operation that writes it. Primary keys are numbers. An
-- instant is the number of microseconds since Monday 0001-01-01 in UTC, so that the weekday is a
-- remainder; each reading of the clock is an argument of its own. A test of the form `moment >=
-- instant - hours` is written with the hours on the other side.
--
-- Parameters: `hash_pin` and `hash_token`, the digests of codes and of tokens, with `hash_secret`
-- and `verify_secret` for passwords, which a hashing library computes; the digits of a new code and
-- the text of a new token, which the source draws at random; the SMS and push providers, as
-- functions on a state of their own; the payment provider; and for the idempotency middleware the
-- application behind it, the decoding of a token, the digest of a body and the rendering of a JSON
-- body. No property of a digest is assumed, except that two texts differ under it, or that a digest
-- verifies the password it was made of, where a statement says so.
--
-- Loops are structural recursion on the rows they visit; the loop of next_opening_after has the
-- eight rounds of the source, which are enough since the schedule repeats every seven days. The
-- reader of Pages/Walk follows at most one cursor more than there are rows, which is enough to get
-- them all. A one-byte serial value is a number that `build_open` tests to be below 256.
--
-- Not modelled: rendering and routing of the HTTP APIs, the routes that only read or that edit the
-- profile, cell types, postamats and devices, the permissions that routes outside Staff ask for,
-- the texts of notifications, the database's own work (locks, migrations), statistics, file
-- storage, and the serial port behind the lock controller.
pub mod Common
pub mod Settings
pub mod Catalog
pub mod Booking
pub mod Audit
pub mod Notify
pub mod Payments
pub mod Custody
pub mod Store
pub mod Allocation
pub mod Workers
pub mod Identity
pub mod KeyValue
pub mod RateLimit
pub mod Idempotency
pub mod Locker
pub mod Mobile
pub mod Admin
pub mod Staff
pub mod Pages
pub mod Tests

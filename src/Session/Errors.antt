-- ===== src/Session/Errors.antt =====
-- com/src/rtu_com_hmi.c, `prvNetconnError`: the text that is logged for an error of the network.
use rtu_com.Common.{String, Option, none, some}
use rtu_com.Kernel.{ErrT}

unfoldable pub netconn_error_text : ErrT → Option String
netconn_error_text ErrT.err_timeout = some "\n ENET - RecvTimeOut - Se detienen procesos!! \n"
netconn_error_text ErrT.err_arg =
    some "\n ENET - Argumento de funcion -netconn_recv- ilegal - Se detienen procesos!! \n"
netconn_error_text ErrT.err_conn = some "\n Problemas de conexion - Se detienen procesos!! \n"
netconn_error_text ErrT.err_clsd = some "\n Closed Connection - Se detienen procesos!! \n"
netconn_error_text ErrT.err_buf = some "\n Error al generar Buffer - Se detienen procesos!! \n"
netconn_error_text other = none
